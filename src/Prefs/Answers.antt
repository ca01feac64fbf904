-- ===== src/Prefs/Answers.antt =====
-- What a table answers after a preference is set: src/app/hid_passthrough/hid_pt_device_prefs.c.
use moonlight_tv.Base.{
  ℕ, zero, suc, ◌≤◌, ◌<◌, List, [], ◌∷◌, ◌++◌, none, some, Bool, true, false, leb, ◌≡◌, refl, sym,
  subst, ap, ◌∙◌, arith, ◌⊎◌, inl, inr, ◌||◌, Bool-cases, length, length-append,
}
use moonlight_tv.Text.{str_eq}
use moonlight_tv.Prefs.{
  max_entries, Entry, Table, pref_find, is_blank, pref_upsert, assign_at, set_auto_plugin, value_at,
  get_auto_plugin,
}
use moonlight_tv.Prefs.Table.{
  Absent, Distinct, IsId, AllIds, IsTable, str_eq_refl, str_eq_swap, Absent-append,
  pref_find-Absent, set_after, set_new,
}
use moonlight_tv.Prefs.Places.{
  Located, pref_find-Located, find_cases, Absent-assign, Distinct-assign, AllIds-assign,
  length-assign_at, Located-assign, value_at-assign_self, value_at-assign_other,
}

get-Absent : (t : Table) (id : List ℕ) → Absent id t → get_auto_plugin t id ≡ false
unfolding get_auto_plugin
get-Absent t id a =
    ap (λ o. elim o [ none ↦ false | some i ↦ value_at t i ]) (pref_find-Absent t id a)

get-Located :
    (t : Table) (id : List ℕ) (j : ℕ)
    → is_blank id ≡ false
    → Located t id j
    → get_auto_plugin t id ≡ value_at t j
unfolding get_auto_plugin
get-Located t id j b l =
    ap (λ o. elim o [ none ↦ false | some i ↦ value_at t i ]) (pref_find-Located t id j b l)

get_blank : (t : Table) → get_auto_plugin t [] ≡ false
unfolding get_auto_plugin pref_find
get_blank t = refl

-- Two tables answer alike for an id if they hold it at the same place with the same value.
get_alike :
    (t u : Table) (q : List ℕ)
    → (Absent q t → Absent q u)
    → ((k : ℕ) → Located t q k → Located u q k × (value_at u k ≡ value_at t k))
    → get_auto_plugin u q ≡ get_auto_plugin t q
get_alike t u [] f g = get_blank u ∙ sym (get_blank t)
get_alike t u (c ∷ cs) f g = elim (find_cases t (c ∷ cs)) [
  | inl a ↦ get-Absent u (c ∷ cs) (f a) ∙ sym (get-Absent t (c ∷ cs) a)
  | inr (k, l) ↦
      get-Located u (c ∷ cs) k refl (g k l).0 ∙ (g k l).1 ∙ sym (get-Located t (c ∷ cs) k refl l)
]

Located-append :
    (t u : Table) (q : List ℕ) (k : ℕ)
    → Located t q k
    → Located (t ++ u) q k × (value_at (t ++ u) k ≡ value_at t k)
unfolding value_at
Located-append [] u q k h = elim h [ ]
Located-append (e ∷ t) u q zero h = (h, refl)
Located-append (e ∷ t) u q (suc k) (x, h) = let r = Located-append t u q k h in ((x, r.0), r.1)

Located-last :
    (t : Table) (e : Entry)
    → Absent e.id t
    → Located (t ++ (e ∷ [])) e.id (length t)
      × (value_at (t ++ (e ∷ [])) (length t) ≡ e.auto_plugin)
unfolding value_at
Located-last [] e h = (str_eq_refl e.id, refl)
Located-last (x ∷ t) e (y, h) = let r = Located-last t e h in ((y, r.0), r.1)

Distinct-snoc : (t : Table) (e : Entry) → Absent e.id t → Distinct t → Distinct (t ++ (e ∷ []))
Distinct-snoc [] e a d = (tt, tt)
Distinct-snoc (x ∷ t) e (y, a) (z, d) =
    (Absent-append x.id t (e ∷ []) z (str_eq_swap x.id e.id y, tt), Distinct-snoc t e a d)

AllIds-snoc : (t : Table) (e : Entry) → IsId e.id → AllIds t → AllIds (t ++ (e ∷ []))
AllIds-snoc [] e i h = (i, tt)
AllIds-snoc (x ∷ t) e i (y, h) = (y, AllIds-snoc t e i h)

-- A table after an assignment: it is sound and holds the value, and all else is as it was.
pub record Holds (t : Table) (id : List ℕ) (v : Bool) (u : Table) : Type 0 where
  pub sound : IsTable u
  pub answer : get_auto_plugin u id ≡ v
  pub others : (q : List ℕ) → str_eq id q ≡ false → get_auto_plugin u q ≡ get_auto_plugin t q

-- The table is full and the id is not in it.
abbrev pub IsFull : Table → List ℕ → Type 0
IsFull t id = (max_entries ≤ length t) × Absent id t

assigned-Holds :
    (t : Table) (id : List ℕ) (v : Bool) (j : ℕ)
    → IsTable t
    → IsId id
    → Located t id j
    → Holds t id v (assign_at t j v)
assigned-Holds t id v j h (b, i) l = record {
  sound = record {
    few = omega (arith, length-assign_at t j v, h.few);
    distinct = Distinct-assign t j v h.distinct;
    ids = AllIds-assign t j v h.ids;
  };
  answer =
      get-Located (assign_at t j v) id j b (Located-assign t id j j v l)
      ∙ value_at-assign_self t id j v l;
  others = λ q d.
      get_alike t (assign_at t j v) q (λ a. Absent-assign q t j v a)
        (λ k m. (Located-assign t q k j v m, value_at-assign_other t id q j k v l m d));
}

added-Holds :
    (t : Table) (id : List ℕ) (v : Bool)
    → IsTable t
    → IsId id
    → Absent id t
    → length t < max_entries
    → Holds t id v (t ++ (record { id = id; auto_plugin = v } ∷ []))
added-Holds t id v h (b, i) a few =
    let e : Entry = record { id = id; auto_plugin = v } in
    let last = Located-last t e a in
    record {
      sound = record {
        few = omega (arith, length-append t (e ∷ []));
        distinct = Distinct-snoc t e a h.distinct;
        ids = AllIds-snoc t e (b, i) h.ids;
      };
      answer = get-Located (t ++ (e ∷ [])) id (length t) b last.0 ∙ last.1;
      others = λ q d.
          get_alike t (t ++ (e ∷ [])) q (λ c. Absent-append q t (e ∷ []) c (d, tt))
            (λ k m. Located-append t (e ∷ []) q k m);
    }

set_found :
    (t : Table) (id : List ℕ) (v : Bool) (j : ℕ)
    → is_blank id ≡ false
    → Located t id j
    → set_auto_plugin t id v ≡ (assign_at t j v, true)
unfolding pref_upsert
set_found t id v j b l =
    set_after t id v (t, some j) (rw (pref_upsert, pref_find-Located t id j b l) refl)

set_full : (t : Table) (id : List ℕ) (v : Bool) → IsFull t id → set_auto_plugin t id v ≡ (t, false)
unfolding pref_upsert
set_full t id v (n, a) =
    set_after t id v (t, none) (rw (pref_upsert, pref_find-Absent t id a, no_room) refl)
  where
    no_room : (leb max_entries (length t) || is_blank id) ≡ true
    no_room = ground arith

-- Setting a preference in a table of at most 32 entries with distinct ids that are not blank and
-- fit, under such an id, either succeeds, and then the table is still such a one, answers the
-- value for that id and what it answered before for any other; or the table is full without the
-- id, and then nothing changes.
pub set_auto_plugin-Holds :
    (t : Table) (id : List ℕ) (v : Bool)
    → IsTable t
    → IsId id
    → (((set_auto_plugin t id v).1 ≡ true) × Holds t id v (set_auto_plugin t id v).0)
      ⊎ (IsFull t id × (set_auto_plugin t id v ≡ (t, false)))
set_auto_plugin-Holds t id v h i = elim (find_cases t id) [
  | inr (j, l) ↦
      inl (written (assign_at t j v) (set_found t id v j i.0 l) (assigned-Holds t id v j h i l))
  | inl a ↦ elim (Bool-cases (leb max_entries (length t))) [
    | inl e ↦ inr ((ground arith, a), set_full t id v (ground arith, a))
    | inr e ↦ inl (
        written (t ++ (record { id = id; auto_plugin = v } ∷ []))
          (set_new t id v a i (ground arith)) (added-Holds t id v h i a (ground arith)))
  ]
]
  where
    written :
        (u : Table)
        → set_auto_plugin t id v ≡ (u, true)
        → Holds t id v u
        → ((set_auto_plugin t id v).1 ≡ true) × Holds t id v (set_auto_plugin t id v).0
    written u e k = (ap (λ p. p.1) e, subst (λ p. Holds t id v p.0) (sym e) k)
