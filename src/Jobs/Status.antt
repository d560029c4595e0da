-- ===== src/Jobs/Status.antt =====
-- The text of a status.
use rapina.Prelude.{
  true, ◌≡◌, ◌↔◌, refl, sym, ◌∙◌, inl, inr, Bytes, codes, bytes_eq, bytes_eq_iff, Bool-cases,
}
use rapina.Error.{ok}
use rapina.Jobs.Model.{JobStatus, pending, running, completed, failed, display, from_str, JobRow}
use rapina.Jobs.Backend.{has_status}

from_str_sound : (s : Bytes) (status : JobStatus) → from_str s ≡ ok status → s ≡ display status
unfolding from_str display
from_str_sound s status h = elim (Bool-cases (bytes_eq s (codes "pending"))) [
  | inl e ↦
      let same : pending ≡ status = cc (rw e at h) in
      rw (← same) ((bytes_eq_iff s (codes "pending")).0 e)
  | inr e ↦ elim (Bool-cases (bytes_eq s (codes "running"))) [
    | inl f ↦
        let same : running ≡ status = cc (rw (e, f) at h) in
        rw (← same) ((bytes_eq_iff s (codes "running")).0 f)
    | inr f ↦ elim (Bool-cases (bytes_eq s (codes "completed"))) [
      | inl g ↦
          let same : completed ≡ status = cc (rw (e, f, g) at h) in
          rw (← same) ((bytes_eq_iff s (codes "completed")).0 g)
      | inr g ↦ elim (Bool-cases (bytes_eq s (codes "failed"))) [
        | inl k ↦
            let same : failed ≡ status = cc (rw (e, f, g, k) at h) in
            rw (← same) ((bytes_eq_iff s (codes "failed")).0 k)
        | inr k ↦ cc (rw (e, f, g, k) at h)
      ]
    ]
  ]
]

from_str-display : (status : JobStatus) → from_str (display status) ≡ ok status
unfolding from_str display bytes_eq
from_str-display pending = refl
from_str-display running = refl
from_str-display completed = refl
from_str-display failed = refl

-- Reading a status that was printed gives it back, and no other text is read as a status.
pub from_str_iff :
    (s : Bytes) (status : JobStatus) → (from_str s ≡ ok status) ↔ (s ≡ display status)
from_str_iff s status = (from_str_sound s status, λ e. rw e (from_str-display status))

pub display-injective : (a b : JobStatus) → display a ≡ display b → a ≡ b
display-injective a b e =
    let h : ok a ≡ ok b = sym (from_str-display a) ∙ (rw e (from_str-display b)) in cc

module _ {Json : Type 0} where
  abbrev pub Is : JobStatus → JobRow Json → Type 0
  Is status row = row.status ≡ display status

  pub has_status-Is : (s : JobStatus) (row : JobRow Json) → has_status s row ≡ true → Is s row
  unfolding has_status
  has_status-Is s row h = (bytes_eq_iff row.status (display s)).0 h

  pub Is-has_status : (s : JobStatus) (row : JobRow Json) → Is s row → has_status s row ≡ true
  unfolding has_status
  Is-has_status s row h = (bytes_eq_iff row.status (display s)).1 h

  pub Is-unique : (a b : JobStatus) (row : JobRow Json) → Is a row → Is b row → a ≡ b
  Is-unique a b row h k = display-injective a b (sym h ∙ k)
