-- ===== src/RefusalLog/Runs.antt =====
-- Runs of the refusal log.
use drawbridge.Base.{ℕ, String, ◌≡◌, refl, true, some, List, [], ◌∷◌, arith}
use drawbridge.Base.Eq.{contains}
use drawbridge.Base.Bytes.{bytes_beq}
use drawbridge.Base.Numerals.{decimal}
use drawbridge.Base.Table.{lookup}
use drawbridge.Ring.{Refusal, new_ring}
use drawbridge.RefusalLog.{
  refusal_cap, refusal_key, LogModel, log_of, unseen_refusals, mark_refusals_seen,
}
use drawbridge.RefusalLog.Groups.{
  group_refusals, all_folded, folded, started, extended_by, by_last, group_in,
}
use drawbridge.RefusalLog.Fresh.{last, all_new}
use drawbridge.RefusalLog.Fetched.{watch, concat, Timely, watch-accumulates}
use drawbridge.RefusalLog.Unseen.{unseen_refusals-since}

abbrev refusal : ℕ → Refusal
refusal at = record { at = at; id = "mirror-skip"; line = "skipping guest tcp/22" }

-- The second fetch finds two refusals that the first had, and a new one.
abbrev batches : List (List Refusal)
batches = (refusal 1 ∷ refusal 2 ∷ []) ∷ (refusal 3 ∷ []) ∷ []

batches-Timely : Timely batches
unfolding Timely
batches-Timely = (omega arith, (omega arith, tt))

watch-accumulates_example : watch batches (some new_ring) [] ≡ last refusal_cap (concat batches)
unfolding concat all_new refusal_key contains bytes_beq decimal
watch-accumulates_example = watch-accumulates batches batches-Timely refl

abbrev model : LogModel
model = record {
  refusals = ("/run/a.sock", refusal 1 ∷ []) ∷ [];
  refusals_seen = [];
  selected = "/run/a.sock";
  pane_open = true;
}

abbrev later : List (String × List Refusal)
later = ("/run/a.sock", refusal 1 ∷ refusal 2 ∷ refusal 3 ∷ []) ∷ []

unseen_refusals-since_runs :
    unseen_refusals "/run/a.sock" (record (mark_refusals_seen model) { refusals = later }) ≡ 2
unfolding all_new refusal_key log_of lookup contains bytes_beq decimal
unseen_refusals-since_runs =
    unseen_refusals-since model [] (refusal 1) (refusal 2 ∷ refusal 3 ∷ []) later refl refl refl
      refl

-- Two names, of which the first one's newest entry comes last.
groups_run :
    group_refusals (refusal 1 ∷ (record { at = 2; id = "auth-mac"; line = "l" }) ∷ refusal 3 ∷ [])
    ≡ (record { id = "auth-mac"; count = 1; first = 2; last = 2; last_line = "l" })
      ∷ (record {
        id = "mirror-skip";
        count = 2;
        first = 1;
        last = 3;
        last_line = "skipping guest tcp/22";
      })
      ∷ []
unfolding group_refusals all_folded folded started extended_by by_last group_in
groups_run = refl
