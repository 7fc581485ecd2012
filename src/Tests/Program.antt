-- ===== src/Tests/Program.antt =====
-- Choices that main.go makes.
use tcp_port.Base.Int.{pos}
use tcp_port.App.Auto.{run_auto}
use tcp_port.App.Detectors.{detectors, run_auto-no_http}
use tcp_port.Base.{Bool, List, [], false, inl, refl, some, ◌∷◌, ◌≢◌}
use tcp_port.Base.Slice.{Bytes}
use tcp_port.Base.Text.{codes}
use tcp_port.App.Cost.{match_cost}
use tcp_port.App.Cost.Forms.{match_cost-forms}
use tcp_port.Base.{arith, ◌&&◌, ◌++◌, ◌≡◌}
use tcp_port.Base.Digits.{atoi-dec}
use tcp_port.Base.Int.{eq_ℤ, leb_ℤ}
use tcp_port.Base.Text.{atoi, dec}

abbrev no_json : Bytes → Bool
no_json s = false

abbrev same : Bytes → Bytes
same s = s

abbrev request_line : Bytes
request_line = codes "GET /index.html HTTP/1."

run_auto-no_http_example :
    (run_auto (detectors no_json same) (codes "POST /x HTTP/1.1") ≢ some (codes "http"))
    × (run_auto (detectors no_json same) (codes "POST /x HTTP/1.1") ≢ some (codes "nacos"))
run_auto-no_http_example =
    run_auto-no_http no_json same b'P' b'O' (codes "ST /x HTTP/1.1") (inl refl)

abbrev arguments : List Bytes
arguments = codes "-v" ∷ codes "mysql" ∷ codes "-q" ∷ []

abbrev not_trimmed : Bytes → Bytes
not_trimmed s = s

match_cost-forms_example :
    (match_cost not_trimmed atoi (pos 70) (dec 50 ++ codes "+") ≡ leb_ℤ (pos 50) (pos 70))
    × (match_cost not_trimmed atoi (pos 70) (b'+' ∷ dec 50) ≡ leb_ℤ (pos 50) (pos 70))
    × (match_cost not_trimmed atoi (pos 70) (dec 50 ++ codes "-") ≡ leb_ℤ (pos 70) (pos 50))
    × (match_cost not_trimmed atoi (pos 70) (b'-' ∷ dec 50) ≡ leb_ℤ (pos 70) (pos 50))
    × (match_cost not_trimmed atoi (pos 70) (dec 50 ++ (b'-' ∷ dec 200))
        ≡ (leb_ℤ (pos 50) (pos 70) && leb_ℤ (pos 70) (pos 200)))
    × (match_cost not_trimmed atoi (pos 70) (dec 50) ≡ eq_ℤ (pos 70) (pos 50))
match_cost-forms_example =
    match_cost-forms not_trimmed atoi (pos 70) 50 200 (λ s h. refl) atoi-dec (omega arith)
      (omega arith)
