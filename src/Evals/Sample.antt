-- ===== src/Evals/Sample.antt =====
-- evals/sample.py with evals/candidates.py: the stratified sample of `sample`. The rows that the
-- query gives, each with its validated alert, its fingerprint and the outcome of the regular
-- expression, come from outside; so does `random.Random`.
pub mod Clamped
pub mod Filled
pub mod Ended
pub mod Counted
pub mod Whole
pub mod Full
use sentinel_brief.Prelude.{
  ℕ, zero, suc, ◌+◌, ◌-◌, ◌/◌, min, max, String, Bool, true, false, not, ◌&&◌, ◌||◌, ◌==◌, ◌==ₛ◌,
  leb, ltb, Option, none, some, List, [], ◌∷◌, ◌++◌, length, if◌then◌else◌,
}

pub record Candidate : Type 0 where
  pub case_id : String
  pub alert_id : String
  pub received_at : ℕ
  pub stratum : String
  pub sensor : String
  pub day : ℕ

-- A row of `_fetch_eligible`, after the validation of its alert.
pub record Row : Type 0 where
  pub alert_id : String
  pub received_at : ℕ
  pub category : Option String
  pub fingerprint : String
  pub sensor : String
  pub injection_hint : Bool

-- `sample` and `shuffle` of a `random.Random`.
pub record Rng (R : Type 0) : Type 0 where
  pub sample : List Candidate → ℕ → R → List Candidate × R
  pub shuffle : List Candidate → R → List Candidate × R

abbrev category_or : Option String → String
category_or none = "unverdicted"
category_or (some c) = c

-- `_stratum_for`
unfoldable pub stratum_for : Row → String
stratum_for r = if r.injection_hint then "injection-candidate" else category_or r.category

unfoldable pub excluded : String → List String → Bool
excluded id [] = false
excluded id (x ∷ xs) = x ==ₛ id || excluded id xs

unfoldable pub candidate_of : Row → Candidate
unfolding stratum_for
candidate_of r = record {
  case_id = r.fingerprint;
  alert_id = r.alert_id;
  received_at = r.received_at;
  stratum = stratum_for r;
  sensor = r.sensor;
  day = r.received_at / 86400000000;
}

unfoldable pub eligible : List String → List Row → List Candidate
unfolding candidate_of excluded
eligible exclude [] = []
eligible exclude (r ∷ rs) =
    let rest = eligible exclude rs in
    if excluded r.fingerprint exclude then rest else candidate_of r ∷ rest

-- `buckets.get(stratum)`
unfoldable pub bucket : String → List Candidate → List Candidate
bucket stratum [] = []
bucket stratum (c ∷ cs) =
    let rest = bucket stratum cs in if c.stratum ==ₛ stratum then c ∷ rest else rest

-- `selected[c.case_id] = c`, on a dict in insertion order.
unfoldable pub put : Candidate → List Candidate → List Candidate
put c [] = c ∷ []
put c (x ∷ xs) = if x.case_id ==ₛ c.case_id then c ∷ xs else x ∷ put c xs

unfoldable pub put_all : List Candidate → List Candidate → List Candidate
unfolding put
put_all [] selected = selected
put_all (c ∷ cs) selected = put_all cs (put c selected)

abbrev pub strata_categories : List String
strata_categories =
    "scanning" ∷ "brute_force" ∷ "reconnaissance" ∷ "successful_intrusion" ∷ "malware_delivery"
    ∷ "persistence_attempt" ∷ "other" ∷ []

unfoldable pub is_selected : Candidate → List Candidate → Bool
is_selected c [] = false
is_selected c (x ∷ xs) = x.case_id ==ₛ c.case_id || is_selected c xs

-- The candidates with `c.case_id not in selected`.
unfoldable pub remainder : List Candidate → List Candidate → List Candidate
unfolding is_selected
remainder selected [] = []
remainder selected (c ∷ cs) =
    let rest = remainder selected cs in if is_selected c selected then rest else c ∷ rest

-- A group of the remainder, by sensor and day.
pub record Group : Type 0 where
  pub sensor : String
  pub day : ℕ
  pub members : List Candidate

-- `groups.setdefault(key, []).append(c)`, with the keys in their order: `str_lt` is that of str.
abbrev pub in_group : Candidate → Group → Bool
in_group c g = g.sensor ==ₛ c.sensor && g.day == c.day

abbrev pub group_of : Candidate → Group
group_of c = record { sensor = c.sensor; day = c.day; members = c ∷ [] }

abbrev pub key_before : (String → String → Bool) → Candidate → Group → Bool
key_before str_lt c g = str_lt c.sensor g.sensor || (c.sensor ==ₛ g.sensor && ltb c.day g.day)

unfoldable pub add_to_group : (String → String → Bool) → Candidate → List Group → List Group
add_to_group str_lt c [] = group_of c ∷ []
add_to_group str_lt c (g ∷ gs) =
    if in_group c g
    then record g { members = g.members ++ (c ∷ []) } ∷ gs
    else if key_before str_lt c g
    then group_of c ∷ g ∷ gs
    else g ∷ add_to_group str_lt c gs

unfoldable pub group_all : (String → String → Bool) → List Candidate → List Group → List Group
unfolding add_to_group
group_all str_lt [] gs = gs
group_all str_lt (c ∷ cs) gs = group_all str_lt cs (add_to_group str_lt c gs)

-- The loop's variables: what is left to fill, and what is chosen.
pub record Filling : Type 0 where
  pub budget : ℕ
  pub selected : List Candidate

-- `groups[key].pop()`: the last member and those before it.
abbrev pub pop_after : Candidate → Option (List Candidate × Candidate) → List Candidate × Candidate
pop_after x none = ([], x)
pop_after x (some (xs, last)) = (x ∷ xs, last)

unfoldable pub pop : List Candidate → Option (List Candidate × Candidate)
pop [] = none
pop (x ∷ xs) = some (pop_after x (pop xs))

abbrev pub popped :
    List Candidate → Filling → Option (List Candidate × Candidate) → List Candidate × Filling
popped members f none = (members, f)
popped members f (some (rest, last)) =
    (rest, record { budget = f.budget - 1; selected = put last f.selected })

-- One visit to a group, while the budget lasts.
unfoldable pub visit : List Candidate → Filling → List Candidate × Filling
unfolding pop put
visit members f = if f.budget == 0 then (members, f) else popped members f (pop members)

-- The index runs through the groups in order: one round of visits.
unfoldable pub round : List (List Candidate) → Filling → List (List Candidate) × Filling
unfolding visit
round [] f = ([], f)
round (g ∷ gs) f = let (g', f') = visit g f in let (gs', f'') = round gs f' in (g' ∷ gs', f'')

unfoldable pub left_over : List (List Candidate) → ℕ
left_over [] = 0
left_over (g ∷ gs) = length g + left_over gs

-- `while remaining_budget > 0 and any(groups[key] …)`, on fuel.
unfoldable pub fill_rounds : ℕ → List (List Candidate) → Filling → List (List Candidate) × Filling
unfolding round left_over
fill_rounds zero gs f = (gs, f)
fill_rounds (suc fuel) gs f =
    let next = (let (gs', f') = round gs f in fill_rounds fuel gs' f') in
    if f.budget == 0 || left_over gs == 0 then (gs, f) else next

module _ {R : Type 0} (rng : Rng R) (str_lt : String → String → Bool) where
  -- `_draw`
  unfoldable pub draw : List Candidate → ℕ → R → List Candidate × R
  draw members k r = if leb (length members) k then (members, r) else rng.sample members k r

  abbrev pub put_drawn : List Candidate → List Candidate × R → List Candidate × R
  put_drawn selected (cs, r) = (put_all cs selected, r)

  -- A stratum: at most `target` of its members. Nothing is drawn from an empty one.
  unfoldable pub draw_stratum : List Candidate → ℕ → List Candidate × R → List Candidate × R
  unfolding draw put_all
  draw_stratum members target (selected, r) =
      put_drawn selected (draw members (min target (length members)) r)

  unfoldable pub draw_categories :
      List String → ℕ → List Candidate → List Candidate × R → List Candidate × R
  unfolding draw_stratum bucket
  draw_categories [] n pool s = s
  draw_categories (c ∷ cs) n pool s =
      draw_categories cs n pool (draw_stratum (bucket c pool) (max 5 (n / 8)) s)

  -- More than `n` are cut back to `n`.
  unfoldable pub clamp : ℕ → List Candidate × R → List Candidate × R
  unfolding draw put_all
  clamp n (selected, r) =
      if ltb n (length selected) then put_drawn [] (draw selected n r) else (selected, r)

  unfoldable pub shuffle_groups : List Group → R → List (List Candidate)
  shuffle_groups [] r = []
  shuffle_groups (g ∷ gs) r =
      let (members, r') = rng.shuffle g.members r in members ∷ shuffle_groups gs r'

  abbrev pub filled : ℕ → List Candidate → List Candidate × R → List Candidate
  filled n pool (selected, r) =
      let groups = shuffle_groups (group_all str_lt (remainder selected pool) []) r in
      (fill_rounds (left_over groups) groups
        (record { budget = n - length selected; selected = selected })).1.selected

  unfoldable pub sample_from : ℕ → List Candidate → R → List Candidate
  unfolding draw_categories draw_stratum bucket clamp shuffle_groups group_all remainder fill_rounds
      left_over
  sample_from n pool r = filled n pool (
      clamp n (
        draw_stratum (bucket "injection-candidate" pool) (n / 4)
          (draw_categories strata_categories n pool ([], r))))

  unfoldable pub sample : ℕ → List String → List Row → R → List Candidate
  unfolding sample_from eligible
  sample n exclude rows r = sample_from n (eligible exclude rows) r
