-- ===== src/Core/Reads/Latest.antt =====
-- Which verdict of an alert is shown.
use mathlib.Core.Path.{subst}
use sentinel_brief.Prelude.{
  ap, sym, arith, ℕ, ◌≡◌, ◌<◌, ◌≤◌, ◌≢◌, ◌⊎◌, inl, inr, refl, true, false, ◌==◌, ==_iff, Option,
  none, some, List, [], ◌∷◌, All, Bool-cases, if◌then◌else◌,
}
use sentinel_brief.Core.Database.{VerdictRow}
use sentinel_brief.Core.Reads.{Columns, newer, newer_of, latest_verdict}

-- A row of the list.
abbrev pub Within : VerdictRow → List VerdictRow → Type 0
Within v [] = ⊥
Within v (w ∷ ws) = (w ≡ v) ⊎ Within v ws

module _ (columns : Columns) where
  -- Created earlier, or at the same time with a key that is not larger.
  abbrev pub NotNewer : VerdictRow → VerdictRow → Type 0
  NotNewer w v =
      (columns.created_at w.id < columns.created_at v.id)
      ⊎ ((columns.created_at w.id ≡ columns.created_at v.id) × (w.id ≤ v.id))

  NotNewer-trans : (x w v : VerdictRow) → NotNewer x w → NotNewer w v → NotNewer x v
  NotNewer-trans x w v h k = ground arith

  NotNewer-refl : (v : VerdictRow) → NotNewer v v
  NotNewer-refl v = ground arith

  newer-NotNewer : (v w : VerdictRow) → newer columns w v ≡ true → NotNewer v w
  newer-NotNewer v w h = ground arith

  older-NotNewer : (v w : VerdictRow) → newer columns w v ≡ false → NotNewer w v
  older-NotNewer v w h = ground arith

  -- No row of the alert is newer.
  abbrev pub NoneNewer : ℕ → VerdictRow → List VerdictRow → Type 0
  NoneNewer alert_id v = All (λ w. w.alert_id ≡ alert_id → NotNewer w v)

  abbrev pub IsLatest : ℕ → List VerdictRow → Option VerdictRow → Type 0
  IsLatest alert_id vs none = All (λ w. w.alert_id ≢ alert_id) vs
  IsLatest alert_id vs (some v) = (v.alert_id ≡ alert_id) × Within v vs × NoneNewer alert_id v vs

  NoneNewer-trans :
      (alert_id : ℕ) (w v : VerdictRow) (vs : List VerdictRow)
      → NotNewer w v
      → NoneNewer alert_id w vs
      → NoneNewer alert_id v vs
  NoneNewer-trans alert_id w v [] n h = tt
  NoneNewer-trans alert_id w v (x ∷ xs) n h =
      (λ e. NotNewer-trans x w v (h.0 e) n, NoneNewer-trans alert_id w v xs n h.1)

  without-NoneNewer :
      (alert_id : ℕ) (v : VerdictRow) (vs : List VerdictRow)
      → All (λ w. w.alert_id ≢ alert_id) vs
      → NoneNewer alert_id v vs
  without-NoneNewer alert_id v [] h = tt
  without-NoneNewer alert_id v (x ∷ xs) h =
      (λ e. absurd (h.0 e), without-NoneNewer alert_id v xs h.1)

  newer_of-IsLatest :
      (alert_id : ℕ) (v : VerdictRow) (vs : List VerdictRow) (o : Option VerdictRow)
      → v.alert_id ≡ alert_id
      → IsLatest alert_id vs o
      → IsLatest alert_id (v ∷ vs) (newer_of columns v o)
  newer_of-IsLatest alert_id v vs none e h =
      (e, inl refl, (λ _. NotNewer-refl v, without-NoneNewer alert_id v vs h))
  newer_of-IsLatest alert_id v vs (some w) e h = elim (Bool-cases (newer columns w v)) [
    | inl n ↦
        subst (IsLatest alert_id (v ∷ vs)) (sym (ap (λ b. some (if b then w else v)) n))
          (h.0, inr h.1, (λ _. newer-NotNewer v w n, h.2))
    | inr n ↦ subst (IsLatest alert_id (v ∷ vs)) (sym (ap (λ b. some (if b then w else v)) n)) (
      e,
      inl refl,
      (λ _. NotNewer-refl v, NoneNewer-trans alert_id w v vs (older-NotNewer v w n) h.2),
    )
  ]

  IsLatest-other :
      (alert_id : ℕ) (v : VerdictRow) (vs : List VerdictRow) (o : Option VerdictRow)
      → v.alert_id ≢ alert_id
      → IsLatest alert_id vs o
      → IsLatest alert_id (v ∷ vs) o
  IsLatest-other alert_id v vs none n h = (n, h)
  IsLatest-other alert_id v vs (some w) n h = (h.0, inr h.1, (λ e. absurd (n e), h.2))

  -- The verdict that the list and the detail show is one of the alert's own, and each of the
  -- alert's was created earlier, or at the same time with an id that is not larger; none is shown
  -- exactly if the alert has none.
  pub latest_verdict-IsLatest :
      (alert_id : ℕ) (vs : List VerdictRow)
      → IsLatest alert_id vs (latest_verdict columns alert_id vs)
  unfolding latest_verdict
  latest_verdict-IsLatest alert_id [] = tt
  latest_verdict-IsLatest alert_id (v ∷ vs) =
      let rest = latest_verdict-IsLatest alert_id vs in
      elim (Bool-cases (v.alert_id == alert_id)) [
        | inl e ↦ rw e (newer_of-IsLatest alert_id v vs _ ((==_iff v.alert_id alert_id).0 e) rest)
        | inr e ↦ rw e (IsLatest-other alert_id v vs _ (λ q. absurd (ground (arith, e, q))) rest)
      ]
