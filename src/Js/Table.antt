-- ===== src/Js/Table.antt =====
-- A JavaScript `Map`: the entries in insertion order. `set` keeps the place of a key that is there.
use nebula_clone.Prelude.{
  ℕ, ◌≡◌, ◌≢◌, refl, List, [], ◌∷◌, Option, none, some, arith, String, ite, str_discrete,
  ℕ_discrete,
}

-- The equality by which a `Map` compares its keys.
pub record Key {ℓ} (K : Type ℓ) : Type ℓ where
  pub same : Discrete K

instance abbrev pub String_key : Key String
String_key = record { same = str_discrete }

instance abbrev pub ℕ_key : Key ℕ
ℕ_key = record { same = ℕ_discrete }

module _ {ℓ} {K V : Type ℓ} ⦃k : Key K⦄ where
  unfoldable pub get : K → List (K × V) → Option V
  get a [] = none
  get a ((b, v) ∷ m) = ite (k.same b a) (some v) (get a m)

  unfoldable pub set : K → V → List (K × V) → List (K × V)
  set a v [] = (a, v) ∷ []
  set a v ((b, w) ∷ m) = ite (k.same b a) ((b, v) ∷ m) ((b, w) ∷ set a v m)

  unfoldable pub delete : K → List (K × V) → List (K × V)
  delete a [] = []
  delete a ((b, w) ∷ m) = let rest = delete a m in ite (k.same b a) rest ((b, w) ∷ rest)

  pub get-set :
      (a b : K) (v : V) (m : List (K × V)) → get b (set a v m) ≡ ite (k.same a b) (some v) (get b m)
  unfolding get set
  get-set a b v [] = refl
  get-set a b v ((c, w) ∷ m) = ground (arith, get-set a b v m)

  pub get-delete :
      (a b : K) (m : List (K × V)) → get b (delete a m) ≡ ite (k.same a b) none (get b m)
  unfolding get delete
  get-delete a b [] = ground arith
  get-delete a b ((c, w) ∷ m) = ground (arith, get-delete a b m)

  pub get-set_same : {a b : K} (v : V) (m : List (K × V)) → a ≡ b → get b (set a v m) ≡ some v
  get-set_same {a} {b} v m i = ground (arith, get-set a b v m)

  pub get-set_other : (a b : K) (v : V) (m : List (K × V)) → a ≢ b → get b (set a v m) ≡ get b m
  get-set_other a b v m n = ground (arith, get-set a b v m)

  pub get-delete_same : {a b : K} (m : List (K × V)) → a ≡ b → get b (delete a m) ≡ none
  get-delete_same {a} {b} m i = ground (arith, get-delete a b m)

  pub get-delete_other : (a b : K) (m : List (K × V)) → a ≢ b → get b (delete a m) ≡ get b m
  get-delete_other a b m n = ground (arith, get-delete a b m)

  unfoldable pub keys : List (K × V) → List K
  keys [] = []
  keys ((b, w) ∷ m) = b ∷ keys m

  -- The keys of a `Map` are distinct.
  abbrev pub IsMap : List (K × V) → Type ℓ
  IsMap [] = Unit
  IsMap ((b, w) ∷ m) = (get b m ≡ none) × IsMap m

  pub set-IsMap : (a : K) (v : V) (m : List (K × V)) → IsMap m → IsMap (set a v m)
  unfolding get set
  set-IsMap a v [] u = (refl, tt)
  set-IsMap a v ((b, w) ∷ m) u = ground (arith, set-IsMap a v m u.1, get-set a b v m)

  pub delete-IsMap : (a : K) (m : List (K × V)) → IsMap m → IsMap (delete a m)
  unfolding delete
  delete-IsMap a [] u = tt
  delete-IsMap a ((b, w) ∷ m) u = ground (arith, delete-IsMap a m u.1, get-delete a b m)
