-- ===== src/ConnectionStats.antt =====
-- src/connection_stats.rs: nginx's own connection counters, found through the dynamic linker.
pub mod Laws
use ngx_vts.Prelude.{ℕ, Bytes, codes, Option, none, some, ◌==◌, if◌then◌else◌}

pub record ConnectionStats : Type 0 where
  pub active : ℕ
  pub reading : ℕ
  pub writing : ℕ
  pub waiting : ℕ
  pub accepted : ℕ
  pub handled : ℕ
  pub requests : ℕ

pub record StatPointers : Type 0 where
  pub active : ℕ
  pub reading : ℕ
  pub writing : ℕ
  pub waiting : ℕ
  pub accepted : ℕ
  pub handled : ℕ
  pub requests : ℕ

-- The process as the module sees it: the address of a symbol (`none` if `dlsym` returns null), the
-- pointer stored at an address (0 is null), and the atomic at an address.
pub record Process : Type 0 where
  pub dlsym : Bytes → Option ℕ
  pub load_pointer : ℕ → ℕ
  pub load_atomic : ℕ → ℕ

-- The `?` operator.
infixl 5 ◌>>=◌
abbrev ◌>>=◌ : {A B : Type 0} → Option A → (A → Option B) → Option B
none >>= f = none
some a >>= f = f a

module _ (P : Process) where
  unfoldable pub lookup_symbol : Bytes → Option ℕ
  lookup_symbol name = elim (P.dlsym name) [
    | none ↦ none
    | some sym_addr ↦
        let atomic_ptr : ℕ = P.load_pointer sym_addr in
        if atomic_ptr == 0 then none else some atomic_ptr
  ]

  unfoldable pub resolve_pointers : Option StatPointers
  resolve_pointers = do
    active ← lookup_symbol (codes "ngx_stat_active")
    reading ← lookup_symbol (codes "ngx_stat_reading")
    writing ← lookup_symbol (codes "ngx_stat_writing")
    waiting ← lookup_symbol (codes "ngx_stat_waiting")
    accepted ← lookup_symbol (codes "ngx_stat_accepted")
    handled ← lookup_symbol (codes "ngx_stat_handled")
    requests ← lookup_symbol (codes "ngx_stat_requests")
    some (record {
      active = active;
      reading = reading;
      writing = writing;
      waiting = waiting;
      accepted = accepted;
      handled = handled;
      requests = requests;
    })

  -- `STAT_POINTERS.get_or_init(resolve_pointers)`: the cell after the call, which is its value.
  abbrev pub get_or_init : Option (Option StatPointers) → Option StatPointers
  get_or_init none = resolve_pointers
  get_or_init (some pointers) = pointers

  abbrev pub sample : StatPointers → ConnectionStats
  sample p = record {
    active = P.load_atomic p.active;
    reading = P.load_atomic p.reading;
    writing = P.load_atomic p.writing;
    waiting = P.load_atomic p.waiting;
    accepted = P.load_atomic p.accepted;
    handled = P.load_atomic p.handled;
    requests = P.load_atomic p.requests;
  }

  -- The counters, and the cell `STAT_POINTERS` after the call.
  unfoldable pub read :
      Option (Option StatPointers) → Option ConnectionStats × Option (Option StatPointers)
  unfolding resolve_pointers lookup_symbol
  read cell = elim (get_or_init cell) [
    | none ↦ (none, some none)
    | some pointers ↦ (some (sample pointers), some (some pointers))
  ]
