-- ===== src/Logs/Service/Tests.antt =====
-- The theorems on the log service, at concrete calls.
use core_dashboard.Prelude.{
  ◌≤◌, ◌≡◌, refl, true, some, List, [], ◌∷◌, arith, All, Text, codes, length,
}
use core_dashboard.Shared.Values.{text, number, natural, is_name}
use core_dashboard.Logs.Service.{
  max_sessions_per_socket, fields, init, key, session_count_for, key_of, destroy_for_socket,
}
use core_dashboard.Logs.Service.Limit.{Call, subscribes, closes, calls, calls_limit}
use core_dashboard.Logs.Service.Races.{found_all, Begins, limit_race, doubled, overlap_leaks}

abbrev anna : Text
anna = codes "s1"

abbrev ask : Text → Call
ask container = subscribes anna (fields (text container) (number (natural 5000))) true true

abbrev greedy : List Call
greedy =
    ask (codes "a")
    ∷ ask (codes "b")
    ∷ ask (codes "a")
    ∷ ask (codes "c")
    ∷ ask (codes "d")
    ∷ closes 1
    ∷ ask (codes "e")
    ∷ []

calls_limit_example : session_count_for anna (calls greedy init) ≤ max_sessions_per_socket
calls_limit_example = calls_limit greedy anna (omega arith) (omega arith)

abbrev many : List Text
many = codes "a" ∷ codes "b" ∷ codes "c" ∷ codes "d" ∷ []

limit_race_example :
    All (Begins anna) many × (session_count_for anna (found_all anna many init) ≡ length many)
unfolding is_name
limit_race_example =
    limit_race anna many (refl, (refl, (refl, (refl, tt))))
      (
        ((λ e. ground arith), ((λ e. ground arith), ((λ e. ground arith), tt))),
        (((λ e. ground arith), ((λ e. ground arith), tt)), (((λ e. ground arith), tt), (tt, tt))),
      )

overlap_leaks_example :
    ((destroy_for_socket anna (doubled anna (codes "web"))).sessions ≡ [])
    × (key_of 0 (destroy_for_socket anna (doubled anna (codes "web"))).live
        ≡ some (key anna (codes "web")))
overlap_leaks_example = overlap_leaks anna (codes "web")
