-- ===== src/RateLimiting/Window/Counting.antt =====
-- Counting the hits in a window.
use remote_connect_backend.Base.{
  ℕ, ◌+◌, ◌≤◌, ◌≡◌, refl, ◌&&◌, List, [], ◌∷◌, arith, length, if◌then◌else◌, leb, ltb,
}
use remote_connect_backend.RateLimiting.Window.{drop_old}

-- How many hits are younger than the window at the time.
unfoldable pub recent : ℕ → ℕ → List ℕ → ℕ
recent t window [] = 0
recent t window (x ∷ xs) = (if leb (x + window) t then 0 else 1) + recent t window xs

-- How many hits are in the window that ends at the time.
unfoldable pub in_window : ℕ → ℕ → List ℕ → ℕ
in_window t window [] = 0
in_window t window (x ∷ xs) =
    (if leb x t && ltb t (x + window) then 1 else 0) + in_window t window xs

pub in_window-recent : (t window : ℕ) (xs : List ℕ) → in_window t window xs ≤ recent t window xs
unfolding recent in_window
in_window-recent t window [] = omega arith
in_window-recent t window (x ∷ xs) = ground (arith, in_window-recent t window xs)

-- Hits only get older.
pub recent-le : (s t window : ℕ) (xs : List ℕ) → s ≤ t → recent t window xs ≤ recent s window xs
unfolding recent
recent-le s t window [] h = omega arith
recent-le s t window (x ∷ xs) h = ground (arith, recent-le s t window xs h)

pub length-drop_old :
    (now window : ℕ) (xs : List ℕ) → length (drop_old now window xs) ≡ recent now window xs
unfolding recent drop_old
length-drop_old now window [] = refl
length-drop_old now window (x ∷ xs) = ground (arith, length-drop_old now window xs)

pub recent-drop_old :
    (now t window : ℕ) (xs : List ℕ)
    → now ≤ t
    → recent t window (drop_old now window xs) ≡ recent t window xs
unfolding recent drop_old
recent-drop_old now t window [] h = refl
recent-drop_old now t window (x ∷ xs) h = ground (arith, recent-drop_old now t window xs h)
