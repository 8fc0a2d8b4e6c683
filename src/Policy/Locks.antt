-- ===== src/Policy/Locks.antt =====
-- agents/go/policy/budget.go: the registry of session locks, under callbacks that run at the same time.
-- The section under `guard` is one step, and so is each operation on the mutex of an entry.
pub mod Counts
pub mod Agreement
pub mod Exclusion
mod Tests
use agentops_open_course.Prelude.{
  ℕ, ◌+◌, ◌-◌, ◌<◌, ◌==◌, ◌≡◌, refl, arith, Bool, true, false, ◌&&◌, Option, none, some,
  if◌then◌else◌, Text, text_eq, text_eq_iff, ◌↔◌,
}

pub record SessionKey : Type 0 where
  pub app_name : Text
  pub user_id : Text
  pub session_id : Text

abbrev pub same_key : SessionKey → SessionKey → Bool
same_key a b =
    text_eq a.app_name b.app_name
    && text_eq a.user_id b.user_id
    && text_eq a.session_id b.session_id

abbrev pub update {ℓ} : {A : Type ℓ} → (ℕ → A) → ℕ → A → ℕ → A
update f i a j = if j == i then a else f j

-- `locks`, and the entries by their address: `refs`, and whether the mutex is locked. No entry stands
-- at `next` or above.
pub record Registry : Type 0 where
  pub locks : SessionKey → Option ℕ
  pub refs : ℕ → ℕ
  pub held : ℕ → Bool
  pub next : ℕ

abbrev pub set_lock : (SessionKey → Option ℕ) → SessionKey → Option ℕ → SessionKey → Option ℕ
set_lock locks key entry k = if same_key k key then entry else locks k

-- The first section of `lock`, and the entry that it takes.
unfoldable pub lock_entry : Registry → SessionKey → Registry × ℕ
lock_entry r key = elim (r.locks key) [
  | some entry ↦ (record r { refs = update r.refs entry (r.refs entry + 1) }, entry)
  | none ↦ (
    record r {
      locks = set_lock r.locks key (some r.next);
      refs = update r.refs r.next 1;
      held = update r.held r.next false;
      next = r.next + 1;
    },
    r.next,
  )
]

-- The last section of the function that `lock` returns.
unfoldable pub unlock_entry : Registry → SessionKey → ℕ → Registry
unlock_entry r key entry =
    let refs = r.refs entry - 1 in
    record r {
      refs = update r.refs entry refs;
      locks = if refs == 0 then set_lock r.locks key none else r.locks;
    }

-- Where a callback stands: outside; before `entry.mutex.Lock()`; with the lock; after
-- `entry.mutex.Unlock()`.
pub data Place : Type 0 where
  outside : Place
  waiting inside leaving : (key : SessionKey) (entry : ℕ) → Place

-- One step of one callback, from a registry and a place to others.
pub data Move (r : Registry) : Place → Registry → Place → Type 0 where
  call : (key : SessionKey) → Move r outside (lock_entry r key).0 (waiting key (lock_entry r key).1)
  acquire :
      {key : SessionKey} {entry : ℕ}
      → r.held entry ≡ false
      → Move r (waiting key entry) (record r { held = update r.held entry true }) (inside key entry)
  release :
      {key : SessionKey} {entry : ℕ}
      → Move r
          (inside key entry)
          (record r { held = update r.held entry false })
          (leaving key entry)
  finish :
      {key : SessionKey} {entry : ℕ} → Move r (leaving key entry) (unlock_entry r key entry) outside

pub record System : Type 0 where
  pub registry : Registry
  pub place : ℕ → Place

-- One step of one of `n` callbacks.
pub data Step (n : ℕ) (s : System) : System → Type 0 where
  pick :
      (i : ℕ) {p q : Place} {r : Registry}
      → i < n
      → s.place i ≡ p
      → Move s.registry p r q
      → Step n s (record { registry = r; place = update s.place i q })

-- `newSessionLockRegistry`.
abbrev pub new_registry : Registry
new_registry = record { locks = λ k. none; refs = λ e. 0; held = λ e. false; next = 0 }

abbrev pub start : System
start = record { registry = new_registry; place = λ i. outside }

pub data Reach (n : ℕ) : System → Type 0 where
  started : Reach n start
  later : {s t : System} → Reach n s → Step n s t → Reach n t
