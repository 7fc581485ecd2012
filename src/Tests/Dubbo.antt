-- ===== src/Tests/Dubbo.antt =====
-- Strings in the body of a Dubbo message.
use tcp_port.Base.{All, List, [], arith, refl, true, ℕ, ◌∷◌, ◌≡◌}
use tcp_port.Base.Slice.{Bytes}
use tcp_port.Base.Text.{codes}
use tcp_port.Dubbo.Strings.{extract_readable_strings, is_readable}
use tcp_port.Dubbo.Words.{IsWord, extract_readable_strings-words, text_of_words}
use tcp_port.Dubbo.Words.{words_of}
use tcp_port.Base.{length, ◌<◌, ◌^◌}
use tcp_port.Dubbo.Metadata.{encode_strings, parse_request_metadata-encode}
use tcp_port.Dubbo.Strings.{RequestMetadata, parse_request_metadata}

abbrev two_words : List (Bytes × ℕ)
two_words = (codes "a.B", 5) ∷ (codes "x", 5) ∷ []

two_words-IsWord : All IsWord two_words
unfolding IsWord is_readable
two_words-IsWord = (((refl, (refl, (refl, tt))), refl), (((refl, tt), refl), tt))

run-readable : All (λ b. is_readable b ≡ true) (codes "run")
unfolding is_readable
run-readable = (refl, (refl, (refl, tt)))

extract_readable_strings-words_example :
    extract_readable_strings (text_of_words two_words (codes "run")) 2
    ≡ codes "a.B" ∷ codes "run" ∷ []
unfolding words_of
extract_readable_strings-words_example =
    extract_readable_strings-words 2 two_words (codes "run") two_words-IsWord run-readable

abbrev no_metadata : RequestMetadata
no_metadata = record { service_name = []; service_version = []; method_name = []; param_types = [] }

abbrev request : List Bytes
request = codes "2.0.2" ∷ codes "a.B" ∷ codes "1.0" ∷ codes "run" ∷ codes "J" ∷ []

request-short : All (λ s. length s < 2 ^ 32) request
request-short = (omega arith, (omega arith, (omega arith, (omega arith, (omega arith, tt)))))

parse_request_metadata-encode_example :
    parse_request_metadata (5 ∷ encode_strings request (0xff ∷ [])) no_metadata ≡ record {
      service_name = codes "a.B";
      service_version = codes "1.0";
      method_name = codes "run";
      param_types = codes "J";
    }
parse_request_metadata-encode_example =
    parse_request_metadata-encode 5 (codes "2.0.2") (codes "a.B") (codes "1.0") (codes "run")
      (codes "J") (0xff ∷ []) no_metadata request-short
