-- ===== src/Wal/Stage/Ordered.antt =====
-- Entries whose indexes are consecutive and whose terms do not fall, as ValidationView of src/wal.cpp
-- wants them.
use det_log.Prelude.{◌≡◌, refl, ℕ, zero, suc, ◌+◌, ◌≤◌, List, [], ◌∷◌, ◌++◌, arith, length, take}
use det_log.Model.{LogEntry}
use det_log.Wal.Stage.{last_term_from}

-- From this index and this term on, indexes are consecutive and terms do not fall.
abbrev pub Ordered : ℕ → ℕ → List LogEntry → Type 0
Ordered index term [] = Unit {0}
Ordered index term (entry ∷ rest) =
    (entry.index ≡ index) × (term ≤ entry.term) × Ordered (suc index) entry.term rest

last_term-Ordered :
    (index term : ℕ) (es : List LogEntry) → Ordered index term es → term ≤ last_term_from term es
unfolding last_term_from
last_term-Ordered index term [] h = omega arith
last_term-Ordered index term (e ∷ rest) (_, up, later) =
    omega (arith, up, last_term-Ordered (suc index) e.term rest later)

pub Ordered-take :
    (index term n : ℕ) (es : List LogEntry)
    → Ordered index term es
    → Ordered index term (take n es) × (last_term_from term (take n es) ≤ last_term_from term es)
unfolding last_term_from
Ordered-take index term zero es h = (tt, last_term-Ordered index term es h)
Ordered-take index term (suc n) [] h = (tt, omega arith)
Ordered-take index term (suc n) (e ∷ rest) (i, up, later) =
    let (kept, last) = Ordered-take (suc index) e.term n rest later in ((i, up, kept), last)

pub Ordered-append :
    (index term : ℕ) (es : List LogEntry) (e : LogEntry)
    → Ordered index term es
    → e.index ≡ index + length es
    → last_term_from term es ≤ e.term
    → Ordered index term (es ++ e ∷ [])
unfolding last_term_from
Ordered-append index term [] e h i up = (omega (arith, i), up, tt)
Ordered-append index term (x ∷ rest) e (j, down, later) i up =
    (j, down, Ordered-append (suc index) x.term rest e later (omega (arith, i)) up)

pub last_term-append :
    (term : ℕ) (es : List LogEntry) (e : LogEntry) → last_term_from term (es ++ e ∷ []) ≡ e.term
unfolding last_term_from
last_term-append term [] e = refl
last_term-append term (x ∷ rest) e = last_term-append x.term rest e

-- The term in front counts only where there is no entry.
pub last_term-front :
    (es : List LogEntry) (term : ℕ) → 1 ≤ length es → last_term_from 1 es ≡ last_term_from term es
unfolding last_term_from
last_term-front [] term h = elim h [ ]
last_term-front (e ∷ rest) term h = refl

pub Ordered-lower : (es : List LogEntry) → Ordered 1 1 es → Ordered 1 0 es
Ordered-lower [] h = tt
Ordered-lower (e ∷ rest) (i, up, later) = (i, omega arith, later)
