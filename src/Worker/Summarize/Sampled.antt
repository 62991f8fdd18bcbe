-- ===== src/Worker/Summarize/Sampled.antt =====
-- worker/summarize.py: the sample of usernames.
use sentinel_brief.Prelude.{
  ℕ, zero, suc, ◌+◌, ◌≤◌, ◌≡◌, refl, String, Bool, true, false, not, ◌&&◌, ◌||◌, ◌==ₛ◌, ◌⊎◌, inl,
  inr, eq_iff, arith, Option, none, some, List, [], ◌∷◌, ◌++◌, length, length-append, All,
  All-append, if◌then◌else◌,
}
use sentinel_brief.Core.Alert.{CowrieEvent, SessionAlert}
use sentinel_brief.Worker.Summarize.{
  is_login, elem, new_username, usernames_loop, usernames_sample_cap, summarize_session,
}

-- No username twice.
abbrev pub NoRepeat : List String → Type 0
NoRepeat [] = Unit
NoRepeat (u ∷ us) = (elem u us ≡ false) × NoRepeat us

length-usernames_loop :
    (room : ℕ) (es : List CowrieEvent) (sample : List String)
    → length (usernames_loop room es sample) ≤ length sample + room
unfolding usernames_loop
length-usernames_loop zero es sample = omega arith
length-usernames_loop (suc room) [] sample = omega arith
length-usernames_loop (suc room) (e ∷ es) sample =
    by_name (new_username e sample) (length-usernames_loop (suc room) es sample)
      (λ u. length-usernames_loop room es (sample ++ (u ∷ [])))
  where
    by_name :
        (n : Option String)
        → length (usernames_loop (suc room) es sample) ≤ length sample + suc room
        → ((u : String)
            → length (usernames_loop room es (sample ++ (u ∷ [])))
              ≤ length (sample ++ (u ∷ [])) + room)
        → length (elim n [
          | none ↦ usernames_loop (suc room) es sample
          | some u ↦ usernames_loop room es (sample ++ (u ∷ []))
        ])
          ≤ length sample + suc room
    by_name none h k = h
    by_name (some u) h k = omega (arith, k u, length-append sample (u ∷ []))

elem-append : (x u : String) (us : List String) → elem x (us ++ (u ∷ [])) ≡ (elem x us || u ==ₛ x)
unfolding elem
elem-append x u [] = ground arith
elem-append x u (v ∷ us) = ground (arith, elem-append x u us)

NoRepeat-append :
    (us : List String) (u : String) → NoRepeat us → elem u us ≡ false → NoRepeat (us ++ (u ∷ []))
unfolding elem
NoRepeat-append [] u h k = (refl, tt)
NoRepeat-append (v ∷ us) u h k = (
  ground (arith, elem-append v u us, eq_iff u v, eq_iff v u),
  NoRepeat-append us u h.1 (ground arith),
)

-- A login event of the list carries the username.
abbrev pub LoggedIn : String → List CowrieEvent → Type 0
LoggedIn u [] = ⊥
LoggedIn u (e ∷ es) = ((is_login e ≡ true) × (e.username ≡ some u)) ⊎ LoggedIn u es

-- A new username comes from a login, and is not in the sample yet.
new_username_lem :
    (e : CowrieEvent) (sample : List String) (u : String)
    → new_username e sample ≡ some u
    → (is_login e ≡ true) × (e.username ≡ some u) × (elem u sample ≡ false)
new_username_lem e sample u h = by_name e.username (is_login e) refl refl h
  where
    by_name :
        (name : Option String) (login : Bool)
        → e.username ≡ name
        → is_login e ≡ login
        → (elim name [
          | none ↦ none
          | some v ↦ if login && not (elem v sample) then some v else none
        ])
          ≡ some u
        → (is_login e ≡ true) × (e.username ≡ some u) × (elem u sample ≡ false)
    by_name none login en el k = cc
    by_name (some v) login en el k = by_test login (elem v sample) el refl k
      where
        by_test :
            (login known : Bool)
            → is_login e ≡ login
            → elem v sample ≡ known
            → (if login && not known then some v else none) ≡ some u
            → (is_login e ≡ true) × (e.username ≡ some u) × (elem u sample ≡ false)
        by_test true false el ek t = (el, cc, cc)
        by_test true true el ek t = cc
        by_test false known el ek t = cc

-- The sample keeps no repeats and only usernames of logins among `all`.
abbrev Good : List CowrieEvent → List String → Type 0
Good all us = NoRepeat us × All (λ u. LoggedIn u all) us

usernames_loop-Good :
    (all : List CowrieEvent) (room : ℕ) (es : List CowrieEvent) (sample : List String)
    → ((u : String) → LoggedIn u es → LoggedIn u all)
    → Good all sample
    → Good all (usernames_loop room es sample)
unfolding usernames_loop
usernames_loop-Good all zero es sample sub g = g
usernames_loop-Good all (suc room) [] sample sub g = g
usernames_loop-Good all (suc room) (e ∷ es) sample sub g =
    by_name (new_username e sample) refl
      (usernames_loop-Good all (suc room) es sample (λ u k. sub u (inr k)) g)
      (λ u. usernames_loop-Good all room es (sample ++ (u ∷ [])) (λ v k. sub v (inr k)))
  where
    by_name :
        (n : Option String)
        → new_username e sample ≡ n
        → Good all (usernames_loop (suc room) es sample)
        → ((u : String)
            → Good all (sample ++ (u ∷ []))
            → Good all (usernames_loop room es (sample ++ (u ∷ []))))
        → Good all (elim n [
          | none ↦ usernames_loop (suc room) es sample
          | some u ↦ usernames_loop room es (sample ++ (u ∷ []))
        ])
    by_name none h same more = same
    by_name (some u) h same more =
        let (login, name, fresh) = new_username_lem e sample u h in
        more u (
          NoRepeat-append sample u g.0 fresh,
          All-append (λ v. LoggedIn v all) sample (u ∷ []) g.1 (sub u (inl (login, name)), tt),
        )

-- The sample of usernames has at most five, none of them twice, and each was tried in a login of
-- the session.
summarize_session-usernames_sample :
    (alert : SessionAlert)
    → (length (summarize_session alert).usernames_sample ≤ 5)
      × NoRepeat (summarize_session alert).usernames_sample
      × All (λ u. LoggedIn u alert.events) (summarize_session alert).usernames_sample
unfolding summarize_session
summarize_session-usernames_sample alert =
    let good =
      usernames_loop-Good alert.events usernames_sample_cap alert.events [] (λ u k. k) (tt, tt) in
    (length-usernames_loop usernames_sample_cap alert.events [], good.0, good.1)
