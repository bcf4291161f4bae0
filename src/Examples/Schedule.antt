-- ===== src/Examples/Schedule.antt =====
-- A toy cron library, a list of entries by their ids, and a box that seals nothing.
use ai_lab.Prelude.{
  All, Bool-cases, inl, inr, subst, same→eq, Text, ℕ, zero, suc, ◌≡◌, refl, ap, ◌≢◌, Option, none,
  some, List, [], ◌∷◌, ◌++◌, arith, if◌then◌else◌, length, txt, is_empty, same, same→ne, hex_encode,
  lookup,
}
use ai_lab.Launch.Webhook.{hook}
use ai_lab.Schedule.{
  Trigger, kind_webhook, kind_cron, NewTrigger, create_trigger, find_webhook_for_verification,
}
use ai_lab.Schedule.Table.{find-create_trigger}
use ai_lab.Schedule.Scheduler.{refresh, Registered, Cron, checksum, Scheduler, refresh_rows}
use ai_lab.Schedule.Scheduler.Sweep.{IsExact, refresh-IsExact}
use ai_lab.Schedule.Scheduler.Sync.{
  Fires, IsOwned, IsUpToDate, refresh_rows-IsSynced, refused_change_loses_row, IsCron, IsSynced,
}

abbrev Entries : Type 0
Entries = List (Option Trigger)

abbrev nth : Entries → ℕ → Option Trigger
nth [] i = none
nth (e ∷ es) zero = e
nth (e ∷ es) (suc i) = nth es i

abbrev blank : ℕ → Entries → Entries
blank i [] = []
blank zero (e ∷ es) = none ∷ es
blank (suc i) (e ∷ es) = e ∷ blank i es

-- An expression is taken where it is not empty.
abbrev toy_add : Trigger → Entries → Option (Entries × ℕ)
toy_add t es = if is_empty t.cron_expr then none else some (es ++ some t ∷ [], length es)

abbrev toy_cron : Cron
toy_cron = record { C = Entries; add_func = toy_add; remove = blank }

nth_past : (es : Entries) → nth es (length es) ≡ none
nth_past [] = refl
nth_past (e ∷ es) = nth_past es

nth_new : (es : Entries) (o : Option Trigger) → nth (es ++ o ∷ []) (length es) ≡ o
nth_new [] o = refl
nth_new (e ∷ es) o = nth_new es o

nth_old :
    (es : Entries) (o : Option Trigger) (j : ℕ) → j ≢ length es → nth (es ++ o ∷ []) j ≡ nth es j
nth_old [] o zero h = absurd (h refl)
nth_old [] o (suc j) h = refl
nth_old (e ∷ es) o zero h = refl
nth_old (e ∷ es) o (suc j) h = nth_old es o j (λ q. h (ap suc q))

nth-blank : (i : ℕ) (es : Entries) → nth (blank i es) i ≡ none
nth-blank i [] = refl
nth-blank zero (e ∷ es) = refl
nth-blank (suc i) (e ∷ es) = nth-blank i es

nth_kept : (i : ℕ) (es : Entries) (j : ℕ) → j ≢ i → nth (blank i es) j ≡ nth es j
nth_kept i [] j h = refl
nth_kept zero (e ∷ es) zero h = absurd (h refl)
nth_kept zero (e ∷ es) (suc j) h = refl
nth_kept (suc i) (e ∷ es) zero h = refl
nth_kept (suc i) (e ∷ es) (suc j) h = nth_kept i es j (λ q. h (ap suc q))

toy_added :
    (t : Trigger) (c c' : Entries) (i : ℕ)
    → toy_add t c ≡ some (c', i)
    → (c' ≡ c ++ some t ∷ []) × (i ≡ length c)
toy_added t c c' i h = ground arith

abbrev toy_laws : IsCron toy_cron
toy_laws = record {
  entry_at = nth;
  adds = λ t c c' i e.
      let (list, at) = toy_added t c c' i e in
      rw (list, at) (nth_past c, nth_new c (some t), λ j h. nth_old c (some t) j h);
  removes = λ i c. (nth-blank i c, λ j h. nth_kept i c j h);
}

abbrev trigger_1 : Trigger
trigger_1 = record {
  id = txt "g1";
  tenant_id = txt "t1";
  agent_id = txt "a1";
  kind = kind_cron;
  name = txt "n";
  cron_expr = txt "0 2 * * *";
  created_at = 1;
}

abbrev refused_trigger : Trigger
refused_trigger = record trigger_1 { cron_expr = [] }

-- A hash that keeps its text.
abbrev toy_sha : Text → Text
toy_sha s = s

abbrev running_one : Scheduler toy_cron toy_sha
running_one = record {
  cron = some trigger_1 ∷ [];
  registered =
      (txt "g1", record { entry_id = 0; checksum = checksum toy_cron toy_sha trigger_1 }) ∷ [];
}

-- A row with another expression.
abbrev moved_trigger : Trigger
moved_trigger = record trigger_1 { cron_expr = txt "0 3 * * *" }

abbrev entry_1 : Registered
entry_1 = record { entry_id = 0; checksum = checksum toy_cron toy_sha trigger_1 }

fired :
    (id : Text) (cur : Registered)
    → lookup id running_one.registered ≡ some cur
    → Fires toy_cron toy_laws toy_sha running_one.cron id cur
unfolding lookup
fired id cur h = elim (Bool-cases (same (txt "g1") id)) [
  | inl q ↦
      let own : entry_1 ≡ cur = ground (arith, h, q) in
      subst (Fires toy_cron toy_laws toy_sha running_one.cron id) own
        (trigger_1, refl, same→eq (txt "g1") id q, refl)
  | inr n ↦ absurd (ground (arith, h, n))
]

owner :
    (j : ℕ) (t : Trigger)
    → nth running_one.cron j ≡ some t
    → IsOwned toy_cron toy_laws toy_sha running_one.registered j t
unfolding lookup same
owner zero t h =
    let own : trigger_1 ≡ t = cc in
    subst (IsOwned toy_cron toy_laws toy_sha running_one.registered 0) own (entry_1, refl, refl)
owner (suc j) t h = absurd cc

running_one-IsSynced : IsSynced toy_cron toy_laws toy_sha running_one
running_one-IsSynced = record { fires = fired; owned = owner }

refresh_rows-IsSynced_example :
    let s = refresh_rows toy_cron toy_sha (moved_trigger ∷ []) running_one in
    IsSynced toy_cron toy_laws toy_sha s
    × All (IsUpToDate toy_cron toy_laws toy_sha s) (moved_trigger ∷ [])
refresh_rows-IsSynced_example =
    refresh_rows-IsSynced toy_cron toy_laws toy_sha (moved_trigger ∷ []) running_one
      (λ c. (c ++ some moved_trigger ∷ [], length c, refl), tt) (tt, tt) running_one-IsSynced

-- A row of a new id: what runs is swept.
abbrev other_trigger : Trigger
other_trigger = record trigger_1 { id = txt "g3" }

refresh-IsExact_example :
    IsSynced toy_cron toy_laws toy_sha
      (refresh toy_cron toy_sha (some (other_trigger ∷ [])) running_one).0
    × IsExact toy_cron toy_laws toy_sha
        (other_trigger ∷ [])
        (refresh toy_cron toy_sha (some (other_trigger ∷ [])) running_one).0
unfolding lookup
refresh-IsExact_example =
    refresh-IsExact toy_cron toy_laws toy_sha (other_trigger ∷ []) running_one
      (λ c. (c ++ some other_trigger ∷ [], length c, refl), tt) (tt, tt) (refl, tt)
      running_one-IsSynced

refused_change_loses_row_example :
    let s' =
      refresh_rows toy_cron toy_sha
        (trigger_1 ∷ [])
        (refresh_rows toy_cron toy_sha (refused_trigger ∷ []) running_one) in
    (s'.registered ≡ running_one.registered) × (toy_laws.entry_at s'.cron 0 ≡ none)
unfolding lookup same hex_encode
refused_change_loses_row_example =
    refused_change_loses_row toy_cron toy_laws toy_sha trigger_1 refused_trigger
      (record { entry_id = 0; checksum = checksum toy_cron toy_sha trigger_1 }) running_one refl
      refl refl
      (same→ne (checksum toy_cron toy_sha refused_trigger) (checksum toy_cron toy_sha trigger_1)
        refl)
      refl

abbrev new_hook : NewTrigger
new_hook = record {
  id = txt "g2";
  now = 2;
  tenant_id = txt "t1";
  agent_id = txt "a1";
  kind = kind_webhook;
  name = txt "push";
  cron_expr = [];
}

abbrev unsealed : Text → Option Text
unsealed s = some s

find-create_trigger_example :
    let out = create_trigger unsealed new_hook (some (255 ∷ [])) [] in
    (t : Trigger) × (out.1 ≡ some (t, hex_encode (255 ∷ [])))
    × (find_webhook_for_verification unsealed (txt "a1") (txt "push") out.0
        ≡ hook (txt "g2") (txt "t1") (txt "push") (hex_encode (255 ∷ [])))
unfolding same hex_encode
find-create_trigger_example =
    find-create_trigger unsealed unsealed new_hook (255 ∷ []) (txt "ff") [] refl
      (same→ne (txt "ff") [] refl) refl refl (same→ne (txt "push") [] refl) refl
