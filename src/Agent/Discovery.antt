-- ===== src/Agent/Discovery.antt =====
-- packages/agent/src: discovery-state.ts, `mergeWithStatic` of device-discovery.ts and
-- discovery-aggregator.ts, and composite-resolver.ts. What a source discovers is an argument, `none` for
-- a failure.
use nebula_clone.Prelude.{
  ℕ, zero, suc, ◌+◌, Bool, true, false, not, ◌&&◌, ◌||◌, List, [], ◌∷◌, ◌++◌, Option, none, some,
  String, any, filter, ltb, is_none, is_truthy, ◌===◌, if◌then◌else◌, ◌≡◌, refl, ap, ◌∙◌, arith,
  Bool-cases, inl, inr,
}
use nebula_clone.Shared.Types.{RegisterDeviceInput, DevicePlatform, ios, android}
use nebula_clone.Agent.Executor.{Resolver}

abbrev pub max_consecutive_failures : ℕ
max_consecutive_failures = 5

pub record DiscoveryState : Type 0 where
  pub devices : List RegisterDeviceInput
  pub consecutive_failures : ℕ

abbrev pub new_state : DiscoveryState
new_state = record { devices = []; consecutive_failures = 0 }

unfoldable pub apply : Option (List RegisterDeviceInput) → DiscoveryState → DiscoveryState × Bool
apply (some result) s = (record { devices = result; consecutive_failures = 0 }, true)
apply none s =
    let failures = s.consecutive_failures + 1 in
    if ltb failures max_consecutive_failures
    then (record s { consecutive_failures = failures }, false)
    else (record { devices = []; consecutive_failures = failures }, false)

-- A number of failures in a row.
unfoldable pub fail_times : ℕ → DiscoveryState → DiscoveryState
fail_times zero s = s
fail_times (suc n) s = (apply none (fail_times n s)).0

failures_counted :
    (n : ℕ) (s : DiscoveryState)
    → (fail_times n s).consecutive_failures ≡ s.consecutive_failures + n
unfolding fail_times apply
failures_counted zero s = omega arith
failures_counted (suc n) s = ground (arith, failures_counted n s)

-- After a successful discovery its devices are kept through four failures in a row, and dropped at the
-- fifth; a failure never registers anything.
pub devices-fail_times :
    (result : List RegisterDeviceInput) (n : ℕ) (s : DiscoveryState)
    → ((fail_times n (apply (some result) s).0).devices
        ≡ (if ltb n max_consecutive_failures then result else []))
      × ((apply none (fail_times n (apply (some result) s).0)).1 ≡ false)
unfolding fail_times apply
devices-fail_times result zero s = (refl, refl)
devices-fail_times result (suc n) s =
    let counted = failures_counted n (apply (some result) s).0 in
    (
      ground (arith, counted, (devices-fail_times result n s).0),
      ground (arith, counted, failures_counted (suc n) (apply (some result) s).0),
    )

abbrev pub has_id : String → List RegisterDeviceInput → Bool
has_id id devices = any (λ (d : RegisterDeviceInput). d.id === id) devices

abbrev is_static : List RegisterDeviceInput → RegisterDeviceInput → Bool
is_static static_devices d = has_id d.id static_devices

unfoldable pub merge_with_static :
    Option (List RegisterDeviceInput) → List RegisterDeviceInput → Option (List RegisterDeviceInput)
merge_with_static discovered [] = discovered
merge_with_static none (s ∷ ss) = some (s ∷ ss)
merge_with_static (some discovered) (s ∷ ss) =
    some (filter (λ d. not (is_static (s ∷ ss) d)) discovered ++ s ∷ ss)

-- The entries of a list under an id.
abbrev pub entries : String → List RegisterDeviceInput → List RegisterDeviceInput
entries id devices = filter (λ (d : RegisterDeviceInput). d.id === id) devices

entries-append :
    (id : String) (xs ys : List RegisterDeviceInput)
    → entries id (xs ++ ys) ≡ entries id xs ++ entries id ys
entries-append id [] ys = refl
entries-append id (x ∷ xs) ys = ground (arith, entries-append id xs ys)

entries-filter :
    (id : String) (statics xs : List RegisterDeviceInput)
    → entries id (filter (λ d. not (is_static statics d)) xs)
      ≡ (if has_id id statics then [] else entries id xs)
entries-filter id statics [] = ground arith
entries-filter id statics (x ∷ xs) =
    ground (arith, entries-filter id statics xs, ap (λ k. has_id k statics) {x = x.id} {y = id})

entries_missing :
    (id : String) (xs : List RegisterDeviceInput) → has_id id xs ≡ false → entries id xs ≡ []
entries_missing id [] e = refl
entries_missing id (x ∷ xs) e = ground (arith, entries_missing id xs)

append_nil : (xs : List RegisterDeviceInput) → xs ++ [] ≡ xs
append_nil [] = refl
append_nil (x ∷ xs) = ap (◌∷◌ x) (append_nil xs)

-- In the merge of discovered and static devices, an id that is static names the static entries alone,
-- and any other id names what was discovered under it.
pub entries-merge_with_static :
    (id : String) (discovered statics merged : List RegisterDeviceInput)
    → merge_with_static (some discovered) statics ≡ some merged
    → entries id merged ≡ (if has_id id statics then entries id statics else entries id discovered)
unfolding merge_with_static
entries-merge_with_static id discovered [] merged e = ground (arith, e)
entries-merge_with_static id discovered (s ∷ ss) merged e =
    let kept = filter (λ d. not (is_static (s ∷ ss) d)) discovered in
    let same : merged ≡ kept ++ s ∷ ss = ground (arith, e) in
    ap (entries id) same
    ∙ entries-append id kept (s ∷ ss)
    ∙ ap (λ xs. xs ++ entries id (s ∷ ss)) (entries-filter id (s ∷ ss) discovered)
    ∙ elim (Bool-cases (has_id id (s ∷ ss))) [
      | inl there ↦ rw there refl
      | inr missing ↦
          rw (missing, entries_missing id (s ∷ ss) missing) (append_nil (entries id discovered))
    ]

-- A source with its state.
pub record Source : Type 0 where
  pub platform : DevicePlatform
  pub state : DiscoveryState

-- The loop of `refresh`, over the results in the order of the sources.
unfoldable pub apply_all :
    List (Option (List RegisterDeviceInput)) → List Source → List Source × Bool
apply_all (result ∷ results) (source ∷ sources) =
    let (state', registers) = apply result source.state in
    let (sources', any_registers) = apply_all results sources in
    (record source { state = state' } ∷ sources', registers || any_registers)
apply_all _ sources = (sources, false)

abbrev is_empty : List RegisterDeviceInput → Bool
is_empty [] = true
is_empty (d ∷ ds) = false

unfoldable pub refresh :
    List RegisterDeviceInput
    → List (Option (List RegisterDeviceInput))
    → List Source
    → List Source × Bool
refresh static_devices results sources =
    let (sources', any_registers) = apply_all results sources in
    (sources', not (is_empty static_devices) || any_registers)

unfoldable pub union : List Source → List RegisterDeviceInput
union [] = []
union (source ∷ sources) = source.state.devices ++ union sources

abbrev or_empty : Option (List RegisterDeviceInput) → List RegisterDeviceInput
or_empty none = []
or_empty (some devices) = devices

-- `DiscoveryAggregator.devices`.
pub devices : List RegisterDeviceInput → List Source → List RegisterDeviceInput
devices static_devices sources = or_empty (merge_with_static (some (union sources)) static_devices)

abbrev same_platform : DevicePlatform → DevicePlatform → Bool
same_platform ios ios = true
same_platform android android = true
same_platform _ _ = false

abbrev ids_of : List RegisterDeviceInput → List RegisterDeviceInput → List String
ids_of statics [] = []
ids_of statics (d ∷ ds) =
    let rest = ids_of statics ds in if is_static statics d then rest else d.id ∷ rest

unfoldable pub discovered_ids :
    DevicePlatform → List RegisterDeviceInput → List Source → List String
discovered_ids platform statics [] = []
discovered_ids platform statics (source ∷ sources) =
    let rest = discovered_ids platform statics sources in
    if same_platform source.platform platform
    then ids_of statics source.state.devices ++ rest
    else rest

-- composite-resolver.ts: the first resolver that knows the device.
abbrev first_url : Option String → Option String → Option String
first_url none later = later
first_url (some url) later = if is_truthy (some url) then some url else later

unfoldable pub resolve : List Resolver → String → Option String
resolve [] device_id = none
resolve (r ∷ rs) device_id = first_url (r.resolve device_id) (resolve rs device_id)

unfoldable pub is_ready : List Resolver → String → Bool
is_ready resolvers device_id =
    any (λ (r : Resolver). not (is_none (r.resolve device_id)) && r.is_ready device_id) resolvers
