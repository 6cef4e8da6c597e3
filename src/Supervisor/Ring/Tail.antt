-- ===== src/Supervisor/Ring/Tail.antt =====
-- internal/supervisor/ring.go: what a ring holds after any writes.
use atenea.Prelude.{
  ℕ, ◌-◌, ◌≤◌, ◌≡◌, refl, sym, ap, ◌∙◌, List, [], ◌∷◌, ◌++◌, arith, length, length-append, drop,
  length-drop, drop_nil, drop-drop, drop-append,
}
use mathlib.Core.List.{append_assoc, append-nil}
use atenea.Supervisor.Ring.{Ring, new_ring, write}

-- The last `n` elements.
abbrev pub last : ℕ → List ℕ → List ℕ
last n xs = drop (length xs - n) xs

-- The writes of a process, in order.
abbrev pub write_all : Ring → List (List ℕ) → Ring
write_all r [] = r
write_all r (p ∷ ps) = write_all (write r p).0 ps

abbrev pub concat : List (List ℕ) → List ℕ
concat [] = []
concat (p ∷ ps) = p ++ concat ps

write-last : (r : Ring) (p : List ℕ) → (write r p).0.buf ≡ last r.limit (r.buf ++ p)
unfolding write
write-last r p = ground arith

last-append-last : (n : ℕ) (xs ys : List ℕ) → last n (last n xs ++ ys) ≡ last n (xs ++ ys)
last-append-last n xs ys =
    let k = length xs - n in
    rw (← drop-append k xs ys (omega arith), drop-drop _ k (xs ++ ys))
      (ap (λ m. drop m (xs ++ ys)) (omega (arith, length-drop k (xs ++ ys), length-append xs ys)))

write-limit : (r : Ring) (p : List ℕ) → (write r p).0.limit ≡ r.limit
unfolding write
write-limit r p = refl

write_all-last :
    (r : Ring) (seen : List ℕ) (ps : List (List ℕ))
    → r.buf ≡ last r.limit seen
    → (write_all r ps).buf ≡ last r.limit (seen ++ concat ps)
unfolding write
write_all-last r seen [] h = rw (append-nil seen) h
write_all-last r seen (p ∷ ps) h =
    let step : (write r p).0.buf ≡ last r.limit (seen ++ p) =
      write-last r p ∙ ap (λ b. last r.limit (b ++ p)) h ∙ last-append-last r.limit seen p in
    write_all-last (write r p).0 (seen ++ p) ps step
    ∙ ap (last r.limit) (append_assoc seen p (concat ps))

-- After any writes to a new ring, it holds the last bytes of all that was written, as many as its
-- limit, or everything if that is not more; so it never holds more bytes than its limit.
pub write_all_lem :
    (limit : ℕ) (ps : List (List ℕ))
    → ((write_all (new_ring limit) ps).buf ≡ last limit (concat ps))
      × (length (write_all (new_ring limit) ps).buf ≤ limit)
write_all_lem limit ps =
    let all : (write_all (new_ring limit) ps).buf ≡ last limit (concat ps) =
      write_all-last (new_ring limit) [] ps (sym (drop_nil (0 - limit))) in
    (all, rw all (omega (arith, length-drop (length (concat ps) - limit) (concat ps))))
