-- ===== src/Agent/Fleet.antt =====
-- packages/agent/src/controller-supervisor.ts: the sessions of a supervisor and their ports, for any
-- kind of session (android-supervisor.ts keeps its sessions the same way). A session object is reached
-- by its number, since timers and listeners hold it after it has left the map; `children` is what the
-- supervisor keeps about processes.
pub mod Ports
pub mod Steps
pub mod Sync
pub mod Objects
pub mod Runs
pub mod Owned
pub mod Kept
use nebula_clone.Prelude.{
  ℕ, zero, suc, ◌+◌, Bool, true, false, List, [], ◌∷◌, ◌++◌, Option, none, some, String, any, ◌==◌,
  ◌===◌, if◌then◌else◌,
}
use nebula_clone.Js.Table.{get, set, delete, keys, String_key, ℕ_key}

pub record Supervisor (S C : Type 0) : Type 0 where
  pub objects : List (ℕ × S)
  pub next_session : ℕ
  pub sessions : List (String × ℕ)
  pub next_port_offset : ℕ
  pub free_ports : List ℕ
  -- The ports whose cool-down timer runs.
  pub cooling : List ℕ
  pub children : C

-- What a supervisor does with its sessions: make one for a device on a port, launch it and halt it, at
-- a time. Launching is told the number of the session.
pub record SessionKind (S C : Type 0) : Type 0 where
  pub base_port : ℕ
  pub port_of : S → ℕ
  pub is_stopping : S → Bool
  pub device_of : S → String
  pub make : String → ℕ → ℕ → S
  pub launch : ℕ → ℕ → S → C → S × C
  pub halt : S → C → S × C

abbrev pub new_supervisor : {S C : Type 0} → C → Supervisor S C
new_supervisor c = record {
  objects = [];
  next_session = 0;
  sessions = [];
  next_port_offset = 0;
  free_ports = [];
  cooling = [];
  children = c;
}

abbrev pub has : String → List String → Bool
has d ds = any (λ e. e === d) ds

-- The first occurrence of a port leaves the list.
abbrev pub remove : ℕ → List ℕ → List ℕ
remove p [] = []
remove p (q ∷ qs) = let rest = remove p qs in if q == p then qs else q ∷ rest

module _ {S C : Type 0} where
  edit : Option S → ℕ → (S → C → S × C) → Supervisor S C → Supervisor S C
  edit none r f st = st
  edit (some s) r f st =
      let (s', c') = f s st.children in record st { objects = set r s' st.objects; children = c' }

  -- A callback that holds a session object.
  unfoldable pub within : ℕ → (S → C → S × C) → Supervisor S C → Supervisor S C
  unfolding edit
  within r f st = edit (get r st.objects) r f st

  pub reuse : List ℕ → ℕ → Supervisor S C → ℕ × Supervisor S C
  reuse (reused ∷ rest) base st = (reused, record st { free_ports = rest })
  reuse [] base st =
      (base + st.next_port_offset, record st { next_port_offset = st.next_port_offset + 1 })

  unfoldable pub allocate_port : ℕ → Supervisor S C → ℕ × Supervisor S C
  unfolding reuse
  allocate_port base st = reuse st.free_ports base st

  -- The cool-down timer of a port fires.
  unfoldable pub cool : ℕ → Supervisor S C → Supervisor S C
  cool p st =
      if any (λ q. q == p) st.cooling
      then record st { cooling = remove p st.cooling; free_ports = st.free_ports ++ p ∷ [] }
      else st

module _ {S C : Type 0} (kind : SessionKind S C) (now : ℕ) where
  pub open_session : String → ℕ × Supervisor S C → Supervisor S C
  unfolding within
  open_session device (port, st) =
      let number = st.next_session in
      within number (kind.launch number now) (record st {
        objects = set number (kind.make device port now) st.objects;
        next_session = number + 1;
        sessions = set device number st.sessions;
      })

  unfoldable pub start_session : String → Supervisor S C → Supervisor S C
  unfolding open_session allocate_port
  start_session device st = open_session device (allocate_port kind.base_port st)

  start_missing : Option ℕ → String → Supervisor S C → Supervisor S C
  unfolding start_session
  start_missing (some number) device st = st
  start_missing none device st = start_session device st

  -- A device that is named twice has its session the second time.
  unfoldable pub start_all : List String → Supervisor S C → Supervisor S C
  unfolding start_missing
  start_all [] st = st
  start_all (device ∷ devices) st =
      start_all devices (start_missing (get device st.sessions) device st)

module _ {S C : Type 0} (kind : SessionKind S C) where
  stop_object : Option S → ℕ → String → Supervisor S C → Supervisor S C
  unfolding edit
  stop_object none number device st = st
  stop_object (some s) number device st = record (edit (some s) number kind.halt st) {
    sessions = delete device st.sessions;
    cooling = st.cooling ++ kind.port_of s ∷ [];
  }

  stop_number : Option ℕ → String → Supervisor S C → Supervisor S C
  unfolding stop_object
  stop_number none device st = st
  stop_number (some number) device st = stop_object (get number st.objects) number device st

  unfoldable pub stop_session : String → Supervisor S C → Supervisor S C
  unfolding stop_number
  stop_session device st = stop_number (get device st.sessions) device st

  unfoldable pub stop_others : List String → List String → Supervisor S C → Supervisor S C
  unfolding stop_session
  stop_others wanted [] st = st
  stop_others wanted (device ∷ devices) st =
      stop_others wanted devices (if has device wanted then st else stop_session device st)

  unfoldable pub stop_all : Supervisor S C → Supervisor S C
  unfolding stop_others
  stop_all st = stop_others [] (keys st.sessions) st

  unfoldable pub sync_devices : ℕ → List String → Supervisor S C → Supervisor S C
  unfolding start_all stop_others
  sync_devices now devices st =
      let started = start_all kind now devices st in
      stop_others devices (keys started.sessions) started
