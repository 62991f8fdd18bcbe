-- ===== src/Core/Reads/Paged.antt =====
-- Paging through the list.
use mathlib.Core.List.{map-append}
use sentinel_brief.Prelude.{
  arith, ℕ, zero, suc, ◌+◌, ◌-◌, ◌*◌, ◌≤◌, ◌<◌, ◌⊎◌, Option, none, some, ◌≡◌, refl, ap, sym, ◌∙◌,
  Bool, true, false, List, [], ◌∷◌, ◌++◌, length, length-take, take, drop, map, All, All-map,
  Bool-cases, inl, inr, if◌then◌else◌,
}
use sentinel_brief.Core.Database.{AlertRow, VerdictRow, Db}
use sentinel_brief.Core.Reads.Matched.{Joins, base_rows-Joins}
use sentinel_brief.Core.Reads.{
  Columns, ListFilters, Joined, AlertSummary, comes_before, insert_row, order_rows, base_rows,
  alert_summary, page_of, list_alerts,
}

module _ {A : Type 0} where
  take-nil : (k : ℕ) → take {A = A} k [] ≡ []
  take-nil zero = refl
  take-nil (suc k) = refl

  take_add : (m n : ℕ) (xs : List A) → take (m + n) xs ≡ take m xs ++ take n (drop m xs)
  take_add zero n xs = let e : 0 + n ≡ n = omega arith in rw e refl
  take_add (suc m) n [] = let e : suc m + n ≡ suc (m + n) = omega arith in rw e (sym (take-nil n))
  take_add (suc m) n (x ∷ xs) =
      let e : suc m + n ≡ suc (m + n) = omega arith in rw e (ap (λ t. x ∷ t) (take_add m n xs))

  take_all : (n : ℕ) (xs : List A) → length xs ≤ n → take n xs ≡ xs
  take_all zero [] h = refl
  take_all zero (x ∷ xs) h = absurd (omega arith)
  take_all (suc n) [] h = refl
  take_all (suc n) (x ∷ xs) h = ap (λ t. x ∷ t) (take_all n xs (omega arith))

length-map : {A B : Type 0} (f : A → B) (xs : List A) → length (map f xs) ≡ length xs
length-map f [] = refl
length-map f (x ∷ xs) = ap suc (length-map f xs)

-- How many rows pass a test.
pub count_rows : (Joined → Bool) → List Joined → ℕ
count_rows p [] = 0
count_rows p (x ∷ xs) = if p x then suc (count_rows p xs) else count_rows p xs

module _ (columns : Columns) where
  -- Received later, or at the same time with an id that is not smaller.
  abbrev pub PrecedesInTime : AlertRow → AlertRow → Type 0
  PrecedesInTime a b =
      (columns.received_at b.id < columns.received_at a.id)
      ⊎ ((columns.received_at a.id ≡ columns.received_at b.id) × (b.id ≤ a.id))

  -- By severity, descending, no verdict after every verdict; then by time.
  abbrev pub Precedes : AlertRow → Option VerdictRow → AlertRow → Option VerdictRow → Type 0
  Precedes a (some v) b (some w) =
      (w.severity < v.severity) ⊎ ((v.severity ≡ w.severity) × PrecedesInTime a b)
  Precedes a (some v) b none = Unit
  Precedes a none b (some w) = ⊥
  Precedes a none b none = PrecedesInTime a b

  -- Each row precedes every later one.
  abbrev pub Ordered : List Joined → Type 0
  Ordered [] = Unit
  Ordered (x ∷ xs) = All (λ y. Precedes x.alert x.verdict y.alert y.verdict) xs × Ordered xs

  abbrev joined : AlertRow → Option VerdictRow → Joined
  joined a o = record { alert = a; verdict = o }

  comes_before-Precedes :
      (a : AlertRow) (o : Option VerdictRow) (b : AlertRow) (q : Option VerdictRow)
      → comes_before columns (joined a o) (joined b q) ≡ true
      → Precedes a o b q
  unfolding comes_before
  comes_before-Precedes a (some v) b (some w) h = ground arith
  comes_before-Precedes a (some v) b none h = tt
  comes_before-Precedes a none b (some w) h = ground arith
  comes_before-Precedes a none b none h = ground arith

  -- Each row comes before every later one, as the statement tests it.
  abbrev Sorted : List Joined → Type 0
  Sorted [] = Unit
  Sorted (x ∷ xs) = All (λ y. comes_before columns x y ≡ true) xs × Sorted xs

  Sorted-Ordered : (rows : List Joined) → Sorted rows → Ordered rows
  Sorted-Ordered [] h = tt
  Sorted-Ordered (x ∷ xs) h = (
    All-map xs (λ y k. comes_before-Precedes x.alert x.verdict y.alert y.verdict k) h.0,
    Sorted-Ordered xs h.1,
  )

  before_trans :
      (x y z : Joined)
      → comes_before columns x y ≡ true
      → comes_before columns y z ≡ true
      → comes_before columns x z ≡ true
  unfolding comes_before
  before_trans x y z h k = ground arith

  before_total : (x y : Joined) → comes_before columns x y ≡ false → comes_before columns y x ≡ true
  unfolding comes_before
  before_total x y h = ground arith

  insert_row-All :
      (z x : Joined) (ys : List Joined)
      → comes_before columns z x ≡ true
      → All (λ y. comes_before columns z y ≡ true) ys
      → All (λ y. comes_before columns z y ≡ true) (insert_row columns x ys)
  unfolding insert_row
  insert_row-All z x [] h k = (h, tt)
  insert_row-All z x (y ∷ ys) h k = elim (Bool-cases (comes_before columns x y)) [
    | inl e ↦ rw e (h, k)
    | inr e ↦ rw e (k.0, insert_row-All z x ys h k.1)
  ]

  insert_row-Sorted : (x : Joined) (ys : List Joined) → Sorted ys → Sorted (insert_row columns x ys)
  unfolding insert_row
  insert_row-Sorted x [] h = (tt, tt)
  insert_row-Sorted x (y ∷ ys) h = elim (Bool-cases (comes_before columns x y)) [
    | inl e ↦ rw e ((e, All-map ys (λ z k. before_trans x y z e k) h.0), h)
    | inr e ↦ rw e (insert_row-All y x ys (before_total x y e) h.0, insert_row-Sorted x ys h.1)
  ]

  order_rows-Sorted : (rows : List Joined) → Sorted (order_rows columns rows)
  unfolding order_rows
  order_rows-Sorted [] = tt
  order_rows-Sorted (x ∷ xs) = insert_row-Sorted x (order_rows columns xs) (order_rows-Sorted xs)

  count_rows-insert :
      (p : Joined → Bool) (x : Joined) (ys : List Joined)
      → count_rows p (insert_row columns x ys) ≡ count_rows p (x ∷ ys)
  unfolding insert_row count_rows
  count_rows-insert p x [] = refl
  count_rows-insert p x (y ∷ ys) = elim (Bool-cases (comes_before columns x y)) [
    | inl e ↦ rw e refl
    | inr e ↦ rw e (ground (arith, count_rows-insert p x ys))
  ]

  count_rows-order :
      (p : Joined → Bool) (rows : List Joined)
      → count_rows p (order_rows columns rows) ≡ count_rows p rows
  unfolding order_rows count_rows
  count_rows-order p [] = refl
  count_rows-order p (x ∷ xs) =
      count_rows-insert p x (order_rows columns xs)
      ∙ ap (λ n. if p x then suc n else n) (count_rows-order p xs)

  length-insert_row :
      (x : Joined) (ys : List Joined) → length (insert_row columns x ys) ≡ suc (length ys)
  unfolding insert_row
  length-insert_row x [] = refl
  length-insert_row x (y ∷ ys) = elim (Bool-cases (comes_before columns x y)) [
    | inl e ↦ rw e refl
    | inr e ↦ rw e (ap suc (length-insert_row x ys))
  ]

  length-order_rows : (rows : List Joined) → length (order_rows columns rows) ≡ length rows
  unfolding order_rows
  length-order_rows [] = refl
  length-order_rows (x ∷ xs) =
      length-insert_row x (order_rows columns xs) ∙ ap suc (length-order_rows xs)

  -- The first `k` pages, one after the other.
  pub list_pages : ListFilters → ℕ → ℕ → Db → List AlertSummary
  list_pages filters zero page_size db = []
  list_pages filters (suc k) page_size db =
      list_pages filters k page_size db ++ (list_alerts columns filters (suc k) page_size db).0

  list_pages-take :
      (filters : ListFilters) (k page_size : ℕ) (db : Db)
      → list_pages filters k page_size db
        ≡ map (alert_summary columns db.tool_calls) (
            take
              (k * page_size)
              (order_rows columns (base_rows columns filters db.verdicts db.alerts)))
  unfolding list_pages list_alerts page_of
  list_pages-take filters zero page_size db = let e : 0 * page_size ≡ 0 = grind arith in rw e refl
  list_pages-take filters (suc k) page_size db =
      let rows = order_rows columns (base_rows columns filters db.verdicts db.alerts) in
      let summary = alert_summary columns db.tool_calls in
      let here : suc k - 1 ≡ k = omega arith in
      let e : suc k * page_size ≡ k * page_size + page_size = grind arith in
      rw (list_pages-take filters k page_size db, e, take_add (k * page_size) page_size rows, here)
        (sym (
          map-append summary (take (k * page_size) rows)
            (take page_size (drop (k * page_size) rows))))

  -- Paging drops no row and repeats none. Enough pages for the total that the list reports are, one
  -- after the other, the summaries of all the rows that match, as often as they are there and in
  -- order: by severity, the rows without a verdict last, then by the time of receipt, then by id,
  -- all descending. The rows are the alerts, each with the latest of its verdicts, that pass every
  -- filter that is given, one of a verdict's field only if they have a verdict. A page is never
  -- longer than its size.
  pub list_alerts-pages :
      (filters : ListFilters) (k page_size : ℕ) (db : Db) (page : ℕ) (p : Joined → Bool)
      → (list_alerts columns filters page page_size db).1 ≤ k * page_size
      → let base = base_rows columns filters db.verdicts db.alerts in
        let ordered = order_rows columns base in
        (list_pages filters k page_size db ≡ map (alert_summary columns db.tool_calls) ordered)
        × Joins columns filters db.verdicts db.alerts base
        × Ordered ordered
        × (count_rows p ordered ≡ count_rows p base)
        × (length (list_alerts columns filters page page_size db).0 ≤ page_size)
  unfolding list_alerts page_of
  list_alerts-pages filters k page_size db page p h =
      let base = base_rows columns filters db.verdicts db.alerts in
      let ordered = order_rows columns base in
      (
        list_pages-take filters k page_size db
            ∙ ap (map (alert_summary columns db.tool_calls))
                (take_all (k * page_size) ordered (omega (arith, length-order_rows base))),
        base_rows-Joins columns filters db.verdicts db.alerts,
        Sorted-Ordered ordered (order_rows-Sorted base),
        count_rows-order p base,
        omega (
          arith,
          length-map (alert_summary columns db.tool_calls)
              (take page_size (drop ((page - 1) * page_size) ordered)),
          length-take page_size (drop ((page - 1) * page_size) ordered),
        ),
      )
