-- ===== src/Text/Contains.antt =====
-- The search finds a needle exactly where the text holds it, upper and lower case letters taken
-- as equal.
use moonlight_tv.Base.{
  ℕ, List, [], ◌∷◌, ◌++◌, map, some, true, ◌≡◌, refl, ap, ap₂, arith, inl, inr, Bool-cases, ==_iff,
  ◌↔◌,
}
use moonlight_tv.Text.{lower, prefix_ci, search_ci, contains_ci, str_eq}

-- The text has the needle somewhere, letters compared in lower case.
abbrev pub Occurs : List ℕ → List ℕ → Type 0
Occurs text needle =
    (before : List ℕ) × (after : List ℕ) × (map lower text ≡ before ++ (map lower needle ++ after))

prefix_sound :
    (text needle : List ℕ)
    → prefix_ci text needle ≡ true
    → (after : List ℕ) × (map lower text ≡ map lower needle ++ after)
unfolding prefix_ci
prefix_sound text [] h = (map lower text, refl)
prefix_sound [] (n ∷ ns) h = absurd (cc h)
prefix_sound (c ∷ text) (n ∷ ns) h =
    let (after, e) = prefix_sound text ns (ground arith) in
    (after, ap₂ ◌∷◌ ((==_iff (lower c) (lower n)).0 (ground arith)) e)

prefix_complete :
    (text needle after : List ℕ)
    → map lower text ≡ map lower needle ++ after
    → prefix_ci text needle ≡ true
unfolding prefix_ci
prefix_complete text [] after e = refl
prefix_complete [] (n ∷ ns) after e = cc
prefix_complete (c ∷ text) (n ∷ ns) after e = ground (arith, prefix_complete text ns after)

search_sound : (text needle : List ℕ) → search_ci text needle ≡ true → Occurs text needle
unfolding search_ci
search_sound [] needle h = absurd (cc h)
search_sound (c ∷ text) needle h = elim (Bool-cases (prefix_ci (c ∷ text) needle)) [
  | inl p ↦ let (after, e) = prefix_sound (c ∷ text) needle p in ([], after, e)
  | inr p ↦
      let (before, after, e) = search_sound text needle (ground arith) in
      (lower c ∷ before, after, ap (λ t. lower c ∷ t) e)
]

search_complete :
    (text : List ℕ) (n : ℕ) (ns before after : List ℕ)
    → map lower text ≡ before ++ (map lower (n ∷ ns) ++ after)
    → search_ci text (n ∷ ns) ≡ true
unfolding search_ci
search_complete [] n ns [] after e = cc
search_complete [] n ns (b ∷ before) after e = cc
search_complete (c ∷ text) n ns [] after e =
    ground (arith, prefix_complete (c ∷ text) (n ∷ ns) after e)
search_complete (c ∷ text) n ns (b ∷ before) after e =
    ground (arith, search_complete text n ns before after)

-- For a needle that is not empty, the search says yes exactly if the text holds the needle,
-- letters compared in lower case.
pub contains_ci_iff :
    (text : List ℕ) (n : ℕ) (ns : List ℕ)
    → (contains_ci (some text) (n ∷ ns) ≡ true) ↔ Occurs text (n ∷ ns)
unfolding contains_ci
contains_ci_iff text n ns = (search_sound text (n ∷ ns), λ o. search_complete text n ns o.0 o.1 o.2)

pub str_eq_iff : (s t : List ℕ) → (str_eq s t ≡ true) ↔ (s ≡ t)
unfolding str_eq
str_eq_iff [] [] = (λ e. refl, λ e. refl)
str_eq_iff [] (b ∷ t) = (λ e. cc, λ e. cc)
str_eq_iff (a ∷ s) [] = (λ e. cc, λ e. cc)
str_eq_iff (a ∷ s) (b ∷ t) =
    let (to, from) = str_eq_iff s t in (λ e. ground (arith, to), λ e. ground (arith, from))
