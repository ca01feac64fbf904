-- ===== src/Prefs/Places.antt =====
-- The places of ids in a table, and what an assignment keeps:
-- src/app/hid_passthrough/hid_pt_device_prefs.c.
use moonlight_tv.Base.{
  ℕ, zero, suc, ◌+◌, List, [], ◌∷◌, some, Bool, true, false, ◌≡◌, ◌≢◌, refl, sym, ap, ◌∙◌, arith,
  ◌⊎◌, inl, inr, Bool-cases, length,
}
use moonlight_tv.Text.{str_eq}
use moonlight_tv.Text.Contains.{str_eq_iff}
use moonlight_tv.Prefs.{Table, find_from, pref_find, is_blank, assign_at, value_at}
use moonlight_tv.Prefs.Table.{Absent, Distinct, AllIds}

-- The first entry with this id has this place.
abbrev pub Located : Table → List ℕ → ℕ → Type 0
Located [] id j = ⊥
Located (e ∷ t) id zero = str_eq e.id id ≡ true
Located (e ∷ t) id (suc j) = (str_eq e.id id ≡ false) × Located t id j

pub find-Located :
    (t : Table) (i : ℕ) (id : List ℕ) (j : ℕ) → Located t id j → find_from i t id ≡ some (i + j)
unfolding find_from
find-Located [] i id j h = elim h [ ]
find-Located (e ∷ t) i id zero h = rw h (ap some (omega arith))
find-Located (e ∷ t) i id (suc j) (x, h) =
    rw x (find-Located t (i + 1) id j h ∙ ap some (omega arith))

pub pref_find-Located :
    (t : Table) (id : List ℕ) (j : ℕ)
    → is_blank id ≡ false
    → Located t id j
    → pref_find t id ≡ some j
unfolding pref_find
pref_find-Located t [] j b h = absurd (cc)
pref_find-Located t (c ∷ cs) j b h = find-Located t 0 (c ∷ cs) j h ∙ ap some (omega arith)

pub find_cases : (t : Table) (id : List ℕ) → Absent id t ⊎ ((j : ℕ) × Located t id j)
find_cases [] id = inl tt
find_cases (e ∷ t) id = elim (Bool-cases (str_eq e.id id)) [
  | inl x ↦ inr (0, x)
  | inr x ↦ elim (find_cases t id) [ inl a ↦ inl (x, a) | inr (j, l) ↦ inr (suc j, (x, l)) ]
]

-- An assignment keeps the ids.
pub Absent-assign :
    (id : List ℕ) (t : Table) (j : ℕ) (v : Bool) → Absent id t → Absent id (assign_at t j v)
unfolding assign_at
Absent-assign id [] j v h = tt
Absent-assign id (e ∷ t) zero v h = h
Absent-assign id (e ∷ t) (suc j) v (x, h) = (x, Absent-assign id t j v h)

pub Distinct-assign : (t : Table) (j : ℕ) (v : Bool) → Distinct t → Distinct (assign_at t j v)
unfolding assign_at
Distinct-assign [] j v h = tt
Distinct-assign (e ∷ t) zero v h = h
Distinct-assign (e ∷ t) (suc j) v (a, h) = (Absent-assign e.id t j v a, Distinct-assign t j v h)

pub AllIds-assign : (t : Table) (j : ℕ) (v : Bool) → AllIds t → AllIds (assign_at t j v)
unfolding assign_at
AllIds-assign [] j v h = tt
AllIds-assign (e ∷ t) zero v h = h
AllIds-assign (e ∷ t) (suc j) v (i, h) = (i, AllIds-assign t j v h)

pub length-assign_at : (t : Table) (j : ℕ) (v : Bool) → length (assign_at t j v) ≡ length t
unfolding assign_at
length-assign_at [] j v = refl
length-assign_at (e ∷ t) zero v = refl
length-assign_at (e ∷ t) (suc j) v = ap suc (length-assign_at t j v)

pub Located-assign :
    (t : Table) (id : List ℕ) (k j : ℕ) (v : Bool) → Located t id k → Located (assign_at t j v) id k
unfolding assign_at
Located-assign [] id k j v h = h
Located-assign (e ∷ t) id zero zero v h = h
Located-assign (e ∷ t) id (suc k) zero v h = h
Located-assign (e ∷ t) id zero (suc j) v h = h
Located-assign (e ∷ t) id (suc k) (suc j) v (x, h) = (x, Located-assign t id k j v h)

pub value_at-assign_self :
    (t : Table) (id : List ℕ) (j : ℕ) (v : Bool) → Located t id j → value_at (assign_at t j v) j ≡ v
unfolding assign_at value_at
value_at-assign_self [] id j v h = elim h [ ]
value_at-assign_self (e ∷ t) id zero v h = refl
value_at-assign_self (e ∷ t) id (suc j) v (x, h) = value_at-assign_self t id j v h

pub one_id : (s a b : List ℕ) → str_eq s a ≡ true → str_eq s b ≡ true → str_eq a b ≡ false → ⊥
one_id s a b p q d =
    differ (sym ((str_eq_iff a b).1 (sym ((str_eq_iff s a).0 p) ∙ (str_eq_iff s b).0 q)) ∙ d)
  where
    differ : true ≢ false
    differ e = cc

pub value_at-assign_other :
    (t : Table) (id q : List ℕ) (j k : ℕ) (v : Bool)
    → Located t id j
    → Located t q k
    → str_eq id q ≡ false
    → value_at (assign_at t j v) k ≡ value_at t k
unfolding assign_at value_at
value_at-assign_other [] id q j k v h l d = elim h [ ]
value_at-assign_other (e ∷ t) id q zero zero v h l d = absurd (one_id e.id id q h l d)
value_at-assign_other (e ∷ t) id q zero (suc k) v h l d = refl
value_at-assign_other (e ∷ t) id q (suc j) zero v h l d = refl
value_at-assign_other (e ∷ t) id q (suc j) (suc k) v (x, h) (y, l) d =
    value_at-assign_other t id q j k v h l d
