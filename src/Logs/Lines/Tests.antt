-- ===== src/Logs/Lines/Tests.antt =====
-- The theorems on lines, at concrete payloads. Here a payload is ASCII, and a text that begins
-- with a digit is a date.
use core_dashboard.Prelude.{
  ℕ, ◌+◌, ◌≡◌, refl, Bool, true, false, List, [], ◌∷◌, ◌++◌, arith, ◌&&◌, leb, Text, codes, split,
}
use core_dashboard.Shared.Events.{stdout, stderr}
use core_dashboard.Logs.Lines.{
  pop, strip_cr, new, index_of, parse_docker_line, clean_lines, parse_lines, push,
}
use core_dashboard.Logs.Lines.Cuts.{push-append, then_push}
use core_dashboard.Logs.Lines.Joins.{
  Written, written, texts, push-written, parse_docker_line_stamped,
}

abbrev ascii : List ℕ → Text
ascii bytes = bytes

abbrev starts_with_digit : Text → Bool
starts_with_digit [] = false
starts_with_digit (c ∷ s) = leb b'0' c && leb c b'9'

abbrev noon : Text
noon = codes "12:00"

abbrev first : List ℕ
first = codes "10:00 hel"

abbrev second : List ℕ
second = codes "lo\r\n\nbare\nrest"

-- The nth line is parsed n minutes after noon.
abbrev clock : ℕ → Text
clock n = codes "12:0" ++ (b'0' + n) ∷ []

torn_line : push ascii starts_with_digit clock 3 stdout (first ++ second) new ≡ (
  record { ts = codes "10:00"; source = stdout; text = codes "hello" }
      ∷ record { ts = codes "12:04"; source = stdout; text = codes "bare" }
      ∷ [],
  record { out = codes "rest"; err = [] },
)
unfolding push pop split clean_lines strip_cr parse_lines parse_docker_line index_of
torn_line = refl

push-append_example :
    push ascii starts_with_digit clock 3 stdout (first ++ second) new
    ≡ then_push ascii starts_with_digit clock 3 stdout second
        (push ascii starts_with_digit clock 3 stdout first new)
push-append_example = push-append ascii starts_with_digit clock 3 stdout first second new refl

abbrev two_lines : List Written
two_lines = (codes "one", true) ∷ (codes "two", false) ∷ []

push-written_example :
    push ascii starts_with_digit clock 0 stderr (written two_lines) new
    ≡ (parse_lines starts_with_digit clock 0 stderr (texts two_lines), new)
unfolding strip_cr
push-written_example =
    push-written ascii starts_with_digit clock 0 stderr (written two_lines) new two_lines refl refl
      ((omega arith, refl, refl), ((omega arith, refl, refl), tt))

parse_docker_line_stamped_case :
    parse_docker_line starts_with_digit noon stdout (codes "10:00 a b")
    ≡ record { ts = codes "10:00"; source = stdout; text = codes "a b" }
parse_docker_line_stamped_case =
    parse_docker_line_stamped starts_with_digit noon stdout (codes "10:00") (codes "a b")
      (omega arith) refl refl
