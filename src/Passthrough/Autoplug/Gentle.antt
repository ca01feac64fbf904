-- ===== src/Passthrough/Autoplug/Gentle.antt =====
-- How often a round plugs devices by itself: `hid_pt_autoplug_reconcile` of
-- src/app/hid_passthrough/ctm/ui_bridge.c.
use moonlight_tv.Base.{
  ℕ, zero, suc, ◌-◌, ◌<◌, List, [], ◌∷◌, Option, none, some, Bool, true, false, not, if◌then◌else◌,
  ◌≡◌, refl, arith, if_both,
}
use moonlight_tv.Passthrough.Autoplug.{
  Entry, done, Item, Round, with_item, with_attempt, failed_round, entry_for, mark_done, put_entry,
  is_pending, is_eligible, reconcile_items, reconcile, cooldown_polls,
}

-- An attempt that fails is the last one.
abbrev pub FailsLast : List (List ℕ × Bool) → Type 0
FailsLast [] = Unit {0}
FailsLast ((key, true) ∷ as') = FailsLast as'
FailsLast ((key, false) ∷ as') = as' ≡ []

abbrev pub any_failed : List (List ℕ × Bool) → Bool
any_failed [] = false
any_failed ((key, true) ∷ as') = any_failed as'
any_failed ((key, false) ∷ as') = true

-- A round that follows a cooldown of `c` polls: one failed attempt at most, which starts a new
-- cooldown, and none while it lasts.
pub record IsGentle (c : ℕ) (r : Round) : Type 0 where
  pub fails_last : FailsLast r.attempts
  pub cools : r.cooldown ≡ (if any_failed r.attempts then cooldown_polls else c - 1)
  pub idle : 0 < c → r.attempts ≡ []

-- The same of the loop, which runs where there is no cooldown.
record IsCareful (r : Round) : Type 0 where
  one_failure : FailsLast r.attempts
  starts_cooldown : r.cooldown ≡ (if any_failed r.attempts then cooldown_polls else 0)

option_both {ℓ κ μ} :
    {A : Type ℓ} {B : Type κ} (P : B → Type μ) (o : Option A) {x : B} {f : A → B}
    → P x
    → ((a : A) → P (f a))
    → P (elim o [ none ↦ x | some a ↦ f a ])
option_both P none p q = p
option_both P (some a) p q = q a

with_item-IsCareful : (i : Item) (r : Round) → IsCareful r → IsCareful (with_item i r)
with_item-IsCareful i r c = record {
  one_failure = c.one_failure;
  starts_cooldown = c.starts_cooldown;
}

with_attempt-IsCareful : (i : Item) (r : Round) → IsCareful r → IsCareful (with_attempt i r)
with_attempt-IsCareful i r c = record {
  one_failure = c.one_failure;
  starts_cooldown = c.starts_cooldown;
}

failed_round-IsCareful :
    (i : Item) (is : List Item) (e : Entry) (es : List Entry) → IsCareful (failed_round i is e es)
failed_round-IsCareful i is e es = record { one_failure = refl; starts_cooldown = refl }

reconcile_items-IsCareful :
    (plugs : List ℕ → Bool) (m : ℕ) (is : List Item) (es : List Entry)
    → IsCareful (reconcile_items plugs m is es)
unfolding reconcile_items
reconcile_items-IsCareful plugs m [] es = record { one_failure = tt; starts_cooldown = refl }
reconcile_items-IsCareful plugs m (i ∷ is) es =
    let passed : IsCareful (with_item i (reconcile_items plugs m is es)) =
      with_item-IsCareful i _ (reconcile_items-IsCareful plugs m is es) in
    if_both IsCareful i.plugged
      (with_item-IsCareful i _ (reconcile_items-IsCareful plugs m is (mark_done m i.item_key es)))
      (if_both IsCareful (not (is_eligible i)) passed (
        option_both IsCareful (entry_for m i.item_key es) passed (λ t.
          if_both IsCareful (not (is_pending (t.0).state))
            (with_item-IsCareful i _ (reconcile_items-IsCareful plugs m is t.1))
            (if_both IsCareful (plugs i.item_key)
              (with_attempt-IsCareful i _ (
                reconcile_items-IsCareful plugs m is
                  (put_entry (record t.0 { state = done; fail_count = 0 }) t.1)))
              (failed_round-IsCareful i is t.0 t.1)))))

-- A round of the automatic plugging makes no attempt while a cooldown lasts, which it shortens by
-- one; otherwise at most one attempt fails, which is then the last one of the round and starts a
-- cooldown of four polls.
pub reconcile-IsGentle :
    (plugs : List ℕ → Bool) (m cooldown : ℕ) (is : List Item) (es : List Entry)
    → IsGentle cooldown (reconcile plugs m cooldown is es)
unfolding reconcile
reconcile-IsGentle plugs m zero is es =
    let c = reconcile_items-IsCareful plugs m is es in
    record {
      fails_last = c.one_failure;
      cools = ground (arith, c.starts_cooldown);
      idle = λ h. absurd (omega arith);
    }
reconcile-IsGentle plugs m (suc cooldown) is es = record {
  fails_last = tt;
  cools = omega arith;
  idle = λ h. refl;
}
