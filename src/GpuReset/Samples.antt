-- ===== src/GpuReset/Samples.antt =====
-- A dump before the start, a second one, and the first one again.
use benchwarmer.Prelude.{◌≡◌, refl, true, false, List, [], ◌∷◌, ◌++◌, some, none}
use benchwarmer.Platform.{codes, same}
use benchwarmer.Platform.Plain.{plain}
use benchwarmer.Policy.Evaluate.{has_prefix}
use benchwarmer.Redact.{ends_with}
use benchwarmer.GpuReset.{
  Reset, Contents, Seen, is_watchdog_dump, scan_entries, scan, new_seen, set_since, poll, poll_all,
}
use benchwarmer.GpuReset.Seen.{news, all_found, poll_all-news}

abbrev contents : Contents
contents =
    (
      codes "a/",
      some (
          record { name = codes "watchdog-1.dmp"; is_dir = false; mod_time = some 10 }
          ∷ record { name = codes "watchdog"; is_dir = true; mod_time = some 11 }
          ∷ record { name = codes "notes.txt"; is_dir = false; mod_time = some 12 }
          ∷ []),
    )
    ∷ (codes "b/", none)
    ∷ []

abbrev old : Reset
old = record { file = codes "a/watchdog-1.dmp"; time = 10 }

contents_found : scan plain (λ d n. d ++ n) contents ≡ old ∷ []
unfolding scan scan_entries is_watchdog_dump has_prefix ends_with same
contents_found = refl

abbrev again : Reset
again = record { file = codes "a/watchdog-1.dmp"; time = 20 }

abbrev scans : List (List Reset)
scans = (old ∷ []) ∷ (again ∷ []) ∷ (again ∷ []) ∷ []

abbrev baseline : Seen
baseline = new_seen (old ∷ []) (λ f. none)

baseline_reports : poll_all scans baseline ≡ again ∷ []
unfolding poll_all poll new_seen same
baseline_reports = refl

-- After the last check before a stop, at 5, the old dump counts.
since_reports : poll_all scans (set_since 5 baseline) ≡ old ∷ again ∷ []
unfolding poll_all poll new_seen set_since same
since_reports = refl

poll_all-news_example :
    poll_all scans (set_since 5 baseline) ≡ news (set_since 5 baseline) [] (all_found scans)
poll_all-news_example = poll_all-news scans (set_since 5 baseline)
