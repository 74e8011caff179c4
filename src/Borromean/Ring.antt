-- ===== src/Borromean/Ring.antt =====
-- ecc/borromean.py: a ring that is signed at one position closes on the octets of step 1.
use ellipticcurves.Prelude.{
  ℕ, zero, suc, ◌+◌, ◌*◌, ◌%◌, ◌≡◌, refl, sym, ap, ap₂, ◌∙◌, arith, some, List, [], ◌∷◌, ◌++◌, map,
  length, get_elem?, take, drop,
}
use ellipticcurves.Prelude.Result.{pass, ok, ok_inj, ◌>>=◌, >>=-ok}
use ellipticcurves.Curve.{Point}
use ellipticcurves.Borromean.{
  RingOps, RingInput, zip, bytes_from_ring_point, ring_challenge, ring_point, close, lead, before,
  after, close_ring, sign_ring, walk,
}

-- The key of the position j_star is q * G, and the values are as many as are drawn.
pub record IsInput (ring : RingOps) (input : RingInput) : Type 0 where
  pub key : get_elem? input.keys input.j_star ≡ some (ring.points.mult input.q ring.points.gen)
  pub drawn : length input.drawn ≡ length input.keys
  pub redrawn : length input.redrawn ≡ input.j_star

zip-map :
    (keys : List Point) (values : List ℕ)
    → length values ≡ length keys
    → zip keys (map (λ (t : Point × ℕ). t.1) (zip keys values)) ≡ zip keys values
unfolding zip
zip-map [] values e = refl
zip-map (Q ∷ keys) [] e = refl
zip-map (Q ∷ keys) (s ∷ values) e = ap (λ ts. (Q, s) ∷ ts) (zip-map keys values (omega arith))

-- The positions before j, at j and after it.
pub zip-split :
    (keys : List Point) (j : ℕ) (drawn redrawn : List ℕ) (s : ℕ) {Q : Point}
    → get_elem? keys j ≡ some Q
    → length drawn ≡ length keys
    → length redrawn ≡ j
    → zip keys (
        map (λ (t : Point × ℕ). t.1) (zip (take j keys) redrawn)
        ++ s ∷ map (λ (t : Point × ℕ). t.1) (zip (drop (suc j) keys) (drop (suc j) drawn)))
      ≡ zip (take j keys) redrawn ++ (Q, s) ∷ zip (drop (suc j) keys) (drop (suc j) drawn)
unfolding zip
zip-split [] j drawn redrawn s e l1 l2 = cc
zip-split (K ∷ keys) j [] redrawn s e l1 l2 = absurd (omega arith)
zip-split (K ∷ keys) zero (t ∷ drawn) [] s {Q} e l1 l2 =
    ap₂ (λ P ts. (P, s) ∷ ts) (some_inj e) (zip-map keys drawn (omega arith))
  where
    some_inj : {P P' : Point} → some P ≡ some P' → P ≡ P'
    some_inj e = cc
zip-split (K ∷ keys) zero (t ∷ drawn) (u ∷ redrawn) s e l1 l2 = absurd (omega arith)
zip-split (K ∷ keys) (suc j) (t ∷ drawn) [] s e l1 l2 = absurd (omega arith)
zip-split (K ∷ keys) (suc j) (t ∷ drawn) (u ∷ redrawn) s e l1 l2 =
    ap (λ ts. (K, u) ∷ ts) (zip-split keys j drawn redrawn s e (omega arith) (omega arith))

length-second :
    (keys : List Point) (values : List ℕ)
    → length values ≡ length keys
    → length (map (λ (t : Point × ℕ). t.1) (zip keys values)) ≡ length keys
unfolding zip
length-second [] values e = refl
length-second (Q ∷ keys) [] e = absurd (omega arith)
length-second (Q ∷ keys) (s ∷ values) e = ap suc (length-second keys values (omega arith))

length-split :
    (keys : List Point) (j : ℕ) (drawn redrawn : List ℕ) (s : ℕ) {Q : Point}
    → get_elem? keys j ≡ some Q
    → length drawn ≡ length keys
    → length redrawn ≡ j
    → length (
        map (λ (t : Point × ℕ). t.1) (zip (take j keys) redrawn)
        ++ s ∷ map (λ (t : Point × ℕ). t.1) (zip (drop (suc j) keys) (drop (suc j) drawn)))
      ≡ length keys
unfolding zip
length-split [] j drawn redrawn s e l1 l2 = cc
length-split (K ∷ keys) j [] redrawn s e l1 l2 = absurd (omega arith)
length-split (K ∷ keys) zero (t ∷ drawn) redrawn s e l1 l2 =
    ap suc (length-second keys drawn (omega arith))
length-split (K ∷ keys) (suc j) (t ∷ drawn) [] s e l1 l2 = absurd (omega arith)
length-split (K ∷ keys) (suc j) (t ∷ drawn) (u ∷ redrawn) s e l1 l2 =
    ap suc (length-split keys j drawn redrawn s e (omega arith) (omega arith))

length-zip :
    (keys : List Point) (j : ℕ) (redrawn : List ℕ) {Q : Point}
    → get_elem? keys j ≡ some Q
    → length redrawn ≡ j
    → length (zip (take j keys) redrawn) ≡ j
unfolding zip
length-zip [] j redrawn e l = cc
length-zip (K ∷ keys) zero redrawn e l = refl
length-zip (K ∷ keys) (suc j) [] e l = absurd (omega arith)
length-zip (K ∷ keys) (suc j) (u ∷ redrawn) e l = ap suc (length-zip keys j redrawn e (omega arith))

module _ (ring : RingOps) (m : List ℕ) (i : ℕ) where
  open ring use {points, n}

  -- After the position j the walk goes as step 1 does.
  walk-close :
      (j e : ℕ) (Q : Point) (s : ℕ) (rest : List (Point × ℕ)) {r0 r : List ℕ}
      → ring_point ring e Q s ≡ ok r0
      → close ring m i (suc j) r0 rest ≡ ok r
      → walk ring m i j e ((Q, s) ∷ rest) ≡ ok r
  unfolding walk close
  walk-close j e Q s [] f c = f ∙ c
  walk-close j e Q s ((P, t) ∷ rest) {r0} f c =
      let (e', f1, c1) = >>=-ok (ring_challenge ring m r0 i (suc j)) _ c in
      let (r', f2, c2) = >>=-ok (ring_point ring e' P t) _ c1 in
      pass (ring_point ring e Q s) _ f
      ∙ pass (ring_challenge ring m r0 i (suc j)) _ f1
      ∙ walk-close (suc j) e' P t rest f2 c2

  walk_longer :
      (j e : ℕ) (P : Point) (t : ℕ) (first : List (Point × ℕ)) (Q : Point) (s : ℕ)
      (rest : List (Point × ℕ))
      → walk ring m i j e ((P, t) ∷ first ++ (Q, s) ∷ rest) ≡ (
          ring_point ring e P t >>= λ r. ring_challenge ring m r i (suc j) >>= λ e'.
          walk ring m i (suc j) e' (first ++ (Q, s) ∷ rest))
  unfolding walk
  walk_longer j e P t [] Q s rest = refl
  walk_longer j e P t (position ∷ first) Q s rest = refl

  -- Up to it the walk goes as step 2 does.
  walk-lead :
      (j e : ℕ) (first : List (Point × ℕ)) (Q : Point) (s : ℕ) (rest : List (Point × ℕ))
      {e_star : ℕ} {r : List ℕ}
      → lead ring m i j e first ≡ ok e_star
      → walk ring m i (j + length first) e_star ((Q, s) ∷ rest) ≡ ok r
      → walk ring m i j e (first ++ (Q, s) ∷ rest) ≡ ok r
  unfolding lead
  walk-lead j e [] Q s rest {e_star} {r} f w =
      ap₂ (λ a b. walk ring m i a b ((Q, s) ∷ rest)) {x = j} {y = j + 0} (omega arith) (ok_inj f)
      ∙ w
  walk-lead j e ((P, t) ∷ first) Q s rest {e_star} {r} f w =
      let (r', f1, g1) = >>=-ok (ring_point ring e P t) _ f in
      let (e', f2, g2) = >>=-ok (ring_challenge ring m r' i (suc j)) _ g1 in
      walk_longer j e P t first Q s rest
      ∙ pass (ring_point ring e P t) _ f1
      ∙ pass (ring_challenge ring m r' i (suc j)) _ f2
      ∙ walk-lead (suc j) e' first Q s rest g2 (
          ap (λ a. walk ring m i a e_star ((Q, s) ∷ rest)) {x = suc j + length first}
            {y = j + suc (length first)} (omega arith)
          ∙ w)

  -- The values of a ring that is signed lead to the octets of step 1.
  pub sign_ring-walk :
      (e0 : List ℕ) (input : RingInput) {values r : List ℕ}
      → ((e : ℕ)
          → ring_point ring e (points.mult input.q points.gen) ((input.k + input.q * e) % n)
            ≡ bytes_from_ring_point ring (points.mult input.k points.gen))
      → IsInput ring input
      → close_ring ring m i input ≡ ok r
      → sign_ring ring m e0 i input ≡ ok values
      → (e : ℕ) × (ring_challenge ring m e0 i 0 ≡ ok e)
        × (walk ring m i 0 e (zip input.keys values) ≡ ok r)
  unfolding close_ring sign_ring
  sign_ring-walk e0 input {values} {r} equation is c f =
      let (e, f1, g1) = >>=-ok (ring_challenge ring m e0 i 0) _ f in
      let (e_star, f2, g2) = >>=-ok (lead ring m i 0 e (before input)) _ g1 in
      let (r0, c1, c2) = >>=-ok (bytes_from_ring_point ring (points.mult input.k points.gen)) _ c in
      let s = (input.k + input.q * e_star) % n in
      let closed =
        walk-close input.j_star e_star (points.mult input.q points.gen) s (after input)
          (equation e_star ∙ c1) c2 in
      (
        e,
        f1,
        ap (λ vs. walk ring m i 0 e (zip input.keys vs)) (sym (ok_inj g2))
            ∙ ap (walk ring m i 0 e) (
                zip-split input.keys input.j_star input.drawn input.redrawn s is.key is.drawn
                  is.redrawn)
            ∙ walk-lead 0 e (before input) (points.mult input.q points.gen) s (after input) f2 (
                ap (λ a. walk ring m i a e_star ((points.mult input.q points.gen, s) ∷ after input))
                  {x = 0 + length (before input)} {y = input.j_star}
                  (omega
                    (arith, length-zip input.keys input.j_star input.redrawn is.key is.redrawn))
                ∙ closed),
      )

  pub length-sign_ring :
      (e0 : List ℕ) (input : RingInput) {values : List ℕ}
      → IsInput ring input
      → sign_ring ring m e0 i input ≡ ok values
      → length values ≡ length input.keys
  unfolding sign_ring
  length-sign_ring e0 input {values} is f =
      let (e, f1, g1) = >>=-ok (ring_challenge ring m e0 i 0) _ f in
      let (e_star, f2, g2) = >>=-ok (lead ring m i 0 e (before input)) _ g1 in
      ap length (sym (ok_inj g2))
      ∙ length-split input.keys input.j_star input.drawn input.redrawn
          ((input.k + input.q * e_star) % n) is.key is.drawn is.redrawn
