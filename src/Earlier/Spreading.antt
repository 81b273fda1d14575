-- ===== src/Earlier/Spreading.antt =====
-- `Cluster::propagate` of src/map-slow-radius/map-cluster/cluster.cpp over a finite map.
use shinzui.Base.{
  ℕ, zero, suc, ◌+◌, ◌%◌, ◌^◌, ◌≤◌, ◌<◌, ◌≡◌, refl, sym, ap, ◌∙◌, subst, List, [], ◌∷◌, Option,
  none, some, Bool, true, false, arith, Bool-cases, inl, inr, In, ltb, ℤ, abs, parts_zero, ◌-ℤ◌,
  if◌then◌else◌,
}
use shinzui.Offset.{Offset, hash, distance}
use shinzui.Offset.Distance.{distance_parts, abs-sub}
use shinzui.Offset.Hash.{InInt32, hash-injective}
use shinzui.World.{CellPtr}
use shinzui.Cell.Hexagon.{In-ring_offsets}
use shinzui.Earlier.{World, get, get_ring, call_all, spread, propagate}
use shinzui.Earlier.Reach.{Source, CacheValid, Same, Gentle, CacheValid-Same, get_ring-Source}

-- All cells of the table are within `radius` of the cell `c`, under their hash, and have coordinates of
-- 32 bits, with room for one more ring around them.
pub record Within (c : CellPtr) (radius : ℕ) (w : World) : Type 0 where
  pub near :
      (o : Offset) (p : CellPtr)
      → get w o ≡ some p
      → distance (w.heap c).offset (w.heap p).offset ≤ radius
  pub hashed : (o : Offset) (p : CellPtr) → get w o ≡ some p → hash (w.heap p).offset ≡ hash o
  pub words :
      (o : Offset) (p : CellPtr)
      → get w o ≡ some p
      → InInt32 (w.heap p).offset.q × InInt32 (w.heap p).offset.r
  pub room_q : abs (w.heap c).offset.q + suc radius < 2 ^ 31
  pub room_r : abs (w.heap c).offset.r + suc radius < 2 ^ 31
  pub rings : CacheValid w

pub Within-Same :
    {w w' : World} (c : CellPtr) (radius : ℕ) → Same w w' → Within c radius w → Within c radius w'
unfolding get
Within-Same c radius same h = record {
  near = λ o p g. rw (same.places c, same.places p) (h.near o p (rw same.table at g));
  hashed = λ o p g. rw (same.places p) (h.hashed o p (rw same.table at g));
  words = λ o p g. rw (same.places p) (h.words o p (rw same.table at g));
  room_q = rw (same.places c) h.room_q;
  room_r = rw (same.places c) h.room_r;
  rings = CacheValid-Same same h.rings;
}

word_near : (a b : ℤ) (n : ℕ) → abs (a -ℤ b) ≤ n → abs a + n < 2 ^ 31 → InInt32 b
word_near a b n h room = omega (arith, abs-sub a b, parts_zero b)

-- The ring beyond them is empty.
ring_beyond :
    (c : CellPtr) (radius : ℕ) (p : CellPtr) (w : World)
    → Within c radius w
    → Source w c (suc radius) p
    → ⊥
ring_beyond c radius p w h (o, m, g) = absurd (omega (arith, h.near o p g, at_o))
  where
    far : distance (w.heap c).offset o ≡ suc radius
    far = (In-ring_offsets (w.heap c).offset o (suc radius) (omega arith)).0.0 m

    word_q : InInt32 o.q
    word_q =
        word_near (w.heap c).offset.q o.q (suc radius)
          (omega (arith, distance_parts (w.heap c).offset o, far)) h.room_q

    word_r : InInt32 o.r
    word_r =
        word_near (w.heap c).offset.r o.r (suc radius)
          (omega (arith, distance_parts (w.heap c).offset o, far)) h.room_r

    same : (w.heap p).offset ≡ o
    same =
        hash-injective (w.heap p).offset o (h.words o p g).0 (h.words o p g).1 word_q word_r
          (h.hashed o p g)

    at_o : distance (w.heap c).offset (w.heap p).offset ≡ suc radius
    at_o = ap (distance (w.heap c).offset) same ∙ far

call_all-none :
    (fnc : CellPtr → World → Bool × World) (nodes : List (Option CellPtr)) (w : World)
    → ((p : CellPtr) → In (some p) nodes → ⊥)
    → (call_all fnc nodes w).0 ≡ 0
unfolding call_all
call_all-none fnc [] w h = refl
call_all-none fnc (none ∷ nodes) w h = call_all-none fnc nodes w (λ p m. h p (inr m))
call_all-none fnc (some p ∷ nodes) w h = absurd (h p (inl refl))

-- A round of the loop.
round : CellPtr → (CellPtr → World → Bool × World) → ℕ → World → ℕ × World
round c fnc r w = call_all fnc (get_ring c r false true w).0 (get_ring c r false true w).1

spread-round :
    (fuel : ℕ) (c : CellPtr) (fnc : CellPtr → World → Bool × World) (r : ℕ) (w : World)
    → suc r < 65536
    → spread (suc fuel) c fnc r w ≡ (
        if ltb 0 (round c fnc (suc r) w).0
        then spread fuel c fnc (suc r) (round c fnc (suc r) w).1
        else some (suc r, (round c fnc (suc r) w).1))
unfolding spread round
spread-round fuel c fnc r w small = let next : (r + 1) % 65536 ≡ suc r = omega arith in rw next refl

-- A function that leaves the table, the places and the rings as they are and keeps `P`, which does not
-- look at the rings.
module _ (P : World → Type 0) (fnc : CellPtr → World → Bool × World) (gentle : Gentle fnc)
    (keeps : (p : CellPtr) (w : World) → P w → P (fnc p w).1)
    (blind : (c : CellPtr) (radius : ℕ) (w : World)
      → P w
      → P (get_ring c radius false true w).1) where
  call_all-Within :
      (c : CellPtr) (radius : ℕ) (nodes : List (Option CellPtr)) (w : World)
      → Within c radius w
      → P w
      → Within c radius (call_all fnc nodes w).1 × P (call_all fnc nodes w).1
  unfolding call_all
  call_all-Within c radius [] w h k = (h, k)
  call_all-Within c radius (none ∷ nodes) w h k = call_all-Within c radius nodes w h k
  call_all-Within c radius (some p ∷ nodes) w h k =
      call_all-Within c radius nodes (fnc p w).1 (Within-Same c radius (gentle p w) h) (keeps p w k)

  get_ring-Within :
      (c : CellPtr) (radius r : ℕ) (w : World)
      → Within c radius w
      → Within c radius (get_ring c r false true w).1
  unfolding get
  get_ring-Within c radius r w h =
      let (from, rings, table, heap) = get_ring-Source c r w h.rings in
      record {
        near = λ o p g. rw heap (h.near o p (rw table at g));
        hashed = λ o p g. rw heap (h.hashed o p (rw table at g));
        words = λ o p g. rw heap (h.words o p (rw table at g));
        room_q = rw heap h.room_q;
        room_r = rw heap h.room_r;
        rings = rings;
      }

  -- What `propagate` comes to.
  abbrev pub Ends : CellPtr → ℕ → Option (ℕ × World) → Type 0
  Ends c radius result =
      (r : ℕ) × (w' : World) × (result ≡ some (r, w'))
      × (r ≤ suc radius)
      × Within c radius w'
      × P w'

  round-Within :
      (c : CellPtr) (radius r : ℕ) (w : World)
      → Within c radius w
      → P w
      → Within c radius (round c fnc r w).1 × P (round c fnc r w).1
  unfolding round
  round-Within c radius r w h k =
      call_all-Within c radius (get_ring c r false true w).0 _ (get_ring-Within c radius r w h)
        (blind c r w k)

  -- Of the ring behind the last one.
  round_beyond :
      (c : CellPtr) (radius : ℕ) (w : World)
      → Within c radius w
      → (round c fnc (suc radius) w).0 ≡ 0
  unfolding round
  round_beyond c radius w h =
      call_all-none fnc (get_ring c (suc radius) false true w).0 _
        (λ p m. ring_beyond c radius p w h ((get_ring-Source c (suc radius) w h.rings).0 p m))

  pub spread-Ends :
      (c : CellPtr) (radius m r : ℕ) (w : World)
      → r + m ≡ radius
      → suc radius < 65536
      → Within c radius w
      → P w
      → Ends c radius (spread (suc m) c fnc r w)
  spread-Ends c radius zero r w e small h k =
      let last : r ≡ radius = omega arith in
      let (h', k') = round-Within c radius (suc r) w h k in
      let none_there : (round c fnc (suc r) w).0 ≡ 0 =
        subst (λ t. (round c fnc (suc t) w).0 ≡ 0) (sym last) (round_beyond c radius w h) in
      rw (spread-round 0 c fnc r w (omega arith), none_there)
        (suc r, (round c fnc (suc r) w).1, refl, omega arith, h', k')
  spread-Ends c radius (suc m) r w e small h k =
      let (h', k') = round-Within c radius (suc r) w h k in
      let rest =
        spread-Ends c radius m (suc r) (round c fnc (suc r) w).1 (omega arith) small h' k' in
      elim (Bool-cases (ltb 0 (round c fnc (suc r) w).0)) [
        | inl more ↦ rw (spread-round (suc m) c fnc r w (omega arith), more) rest
        | inr over ↦
            rw (spread-round (suc m) c fnc r w (omega arith), over)
              (suc r, (round c fnc (suc r) w).1, refl, omega arith, h', k')
      ]

  -- Let all cells of the map be within `radius` of the cell `c`, where a ring of one more fits the
  -- 16 bits of a radius. Then `propagate` comes to an end after at most one ring more than that,
  -- and the map is as it was.
  pub propagate-Ends :
      (c : CellPtr) (radius : ℕ) (w : World)
      → suc radius < 65536
      → Within c radius w
      → P w
      → Ends c radius (propagate (suc radius) c fnc w)
  unfolding propagate
  propagate-Ends c radius w small h k =
      spread-Ends c radius radius 0 (fnc c w).1 (omega arith) small
        (Within-Same c radius (gentle c w) h) (keeps c w k)
