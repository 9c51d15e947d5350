-- ===== src/Logs/Service/Keys.antt =====
-- The keys of the session map: `${socketId}|${container}` belongs to one socket only.
use core_dashboard.Prelude.{
  ℕ, ◌+◌, ◌≤◌, ◌≡◌, ◌≢◌, refl, Bool, true, false, none, List, [], ◌∷◌, ◌++◌, arith, filter, length,
  number_equality, text_equality, Text, Lacks,
}
use core_dashboard.Logs.Service.{key, starts_with, owned_by, get, set, delete}

starts_with-key :
    (socket other container : Text)
    → Lacks b'|' socket
    → Lacks b'|' other
    → starts_with (key socket container) (other ++ b'|' ∷ []) ≡ true
    → socket ≡ other
unfolding starts_with
starts_with-key [] [] container h k e = refl
starts_with-key [] (d ∷ other) container h (k, _) e = absurd (k (ground arith))
starts_with-key (c ∷ socket) [] container (h, _) k e = absurd (h (ground arith))
starts_with-key (c ∷ socket) (d ∷ other) container (_, h) (_, k) e =
    ground (arith, starts_with-key socket other container h k)

-- A key starts with its own socket's prefix.
pub owned_by-key :
    (socket container : Text) (id : ℕ) → owned_by socket (key socket container, id) ≡ true
unfolding starts_with
owned_by-key [] container id = refl
owned_by-key (c ∷ socket) container id = ground (arith, owned_by-key socket container id)

-- No other socket's prefix fits.
pub owned_by-key_ne :
    (socket other container : Text) (id : ℕ)
    → Lacks b'|' socket
    → Lacks b'|' other
    → socket ≢ other
    → owned_by other (key socket container, id) ≡ false
owned_by-key_ne socket other container id h k n =
    ground (arith, starts_with-key socket other container h k)

abbrev pub count : Text → List (Text × ℕ) → ℕ
count socket m = length (filter (owned_by socket) m)

abbrev pub one_if : Bool → ℕ
one_if true = 1
one_if false = 0

-- A new key adds one entry to the sockets that own it.
pub count-set :
    (socket k : Text) (id : ℕ) (m : List (Text × ℕ))
    → get k m ≡ none
    → count socket (set k id m) ≡ count socket m + one_if (owned_by socket (k, id))
unfolding get set
count-set socket k id [] e = ground arith
count-set socket k id ((j, old) ∷ m) e = ground (arith, count-set socket k id m)

pub count-delete-le :
    (socket k : Text) (m : List (Text × ℕ)) → count socket (delete k m) ≤ count socket m
unfolding delete
count-delete-le socket k [] = omega arith
count-delete-le socket k ((j, id) ∷ m) = ground (arith, count-delete-le socket k m)
