-- ===== src/OnceCell/Tell.antt =====
-- src/once_cell.rs: a node that was popped is signaled.
use xutex.Prelude.{
  ℕ, ◌+◌, ◌≤◌, ◌<◌, ◌≡◌, false, Bool-cases, inl, inr, refl, List, ◌∷◌, ◌==◌, if◌then◌else◌, arith,
  count, total, total-update_two, update_two, update_two-cases, weight-le-total,
}
use xutex.OnceCell.State.{ready, Wake, Cell, telling, OnceCaller, published_value}
use xutex.OnceCell.Steps.{OnceSystem, tell}
use xutex.OnceCell.Invariant.{
  Inv, Sound, Attended, roles, locks, in_chain, linked, contends, completes, sleeps, needs_ready,
}

Attended-le :
    (k k' c c' : ℕ) (cell : Cell) → k ≤ k' → c ≤ c' → Attended k c cell → Attended k' c' cell
Attended-le k k' c c' cell p q a = ground arith

module _ {n : ℕ} {s : OnceSystem} (inv : Inv n s) (i : ℕ) (lt : i < n) where
  module _ (j : ℕ) (c : List ℕ) (k : Wake) (here : (s.caller i).place ≡ telling (j ∷ c) k) where
    told_linked : linked (s.caller j) ≡ 1
    told_linked =
        let mine : in_chain j (s.caller i) ≡ 1 + count j c = rw (in_chain, here) (ground arith) in
        let most : linked (s.caller j) ≤ 1 = linked-le (s.caller j) in
        omega (arith, most, inv.places j, mine, weight-le-total (in_chain j) n s.caller i lt)
      where
        linked-le : (c : OnceCaller) → linked c ≤ 1
        linked-le c = ground arith

    told_among : j < n
    told_among = inv.among j (omega (arith, told_linked))

    teller_unlinked : linked (s.caller i) ≡ 0
    teller_unlinked = rw (linked, here) refl

    apart : (i == j) ≡ false
    apart = elim (Bool-cases (i == j)) [
      | inl same ↦
          let e : i ≡ j = ground arith in
          let unlinked : linked (s.caller j) ≡ 0 = rw e at teller_unlinked in
          absurd (omega (arith, told_linked))
      | inr other ↦ other
    ]

    told_wake : sleeps k ≡ 0
    told_wake = let sound : Sound s.cell (s.caller i) = inv.sound i in rw here at sound.tells_awake

    told_ready : k ≡ published_value → s.cell.stage ≡ ready
    told_ready e = (inv.sound i).sees_ready (rw (needs_ready, here, e) refl)

    abbrev told : OnceCaller
    told = record (s.caller j) { wake = k }

    abbrev teller : OnceCaller
    teller = record (s.caller i) { place = telling c k }

    abbrev after : ℕ → OnceCaller
    after = update_two s.caller i teller j told

    after-sum :
        (w : OnceCaller → ℕ)
        → w teller + w told + total w n s.caller ≡ w (s.caller i) + w (s.caller j) + total w n after
    after-sum w = total-update_two w n s.caller i teller j told lt told_among apart

    after_cases :
        (P : ℕ → OnceCaller → Type 0)
        → P i teller
        → P j told
        → ((x : ℕ) → (x == i) ≡ false → (x == j) ≡ false → P x (s.caller x))
        → (x : ℕ) → P x (after x)
    after_cases = update_two-cases s.caller i teller j told

    held_at : (x : ℕ) → in_chain x (s.caller i) ≡ (if x == j then 1 else 0) + in_chain x teller
    held_at x = rw (in_chain, here) refl

    after-places : (x : ℕ) → count x s.cell.queue + total (in_chain x) n after ≡ linked (after x)
    after-places =
        after_cases (λ x c. count x s.cell.queue + total (in_chain x) n after ≡ linked c)
          (ground (arith, inv.places i, after-sum (in_chain i), held_at i, apart, teller_unlinked))
          (ground (arith, inv.places j, after-sum (in_chain j), held_at j, told_linked, told_wake))
          (λ x other miss. ground (arith, inv.places x, after-sum (in_chain x), held_at x))

    teller_counts :
        (roles (s.caller i) ≡ 0)
        × (locks (s.caller i) ≡ 0)
        × (completes (s.caller i) ≡ 0)
        × (contends (s.caller i) + contends (s.caller j) ≤ contends teller + contends told)
    teller_counts = (
      rw (roles, here) refl,
      rw (locks, here) refl,
      rw (completes, here) refl,
      contends-le (s.caller i) (s.caller j) here told_linked,
    )
      where
        contends-le :
            (a b : OnceCaller)
            → a.place ≡ telling (j ∷ c) k
            → linked b ≡ 1
            → contends a + contends b
              ≤ contends (record a { place = telling c k }) + contends (record b { wake = k })
        contends-le a b e live = ground arith

    told-Sound : Sound s.cell told
    told-Sound = sound_told (s.caller j) told_linked told_ready (inv.sound j)
      where
        sound_told :
            (b : OnceCaller)
            → linked b ≡ 1
            → (k ≡ published_value → s.cell.stage ≡ ready)
            → Sound s.cell b
            → Sound s.cell (record b { wake = k })
        sound_told b live published sound =
            ground (arith, sound.sees_ready, sound.wrote, sound.tells_awake)

    teller-Sound : Sound s.cell teller
    teller-Sound = sound_teller (s.caller i) here (inv.sound i)
      where
        sound_teller :
            (a : OnceCaller)
            → a.place ≡ telling (j ∷ c) k
            → Sound s.cell a
            → Sound s.cell (record a { place = telling c k })
        sound_teller a e sound = ground (arith, sound.sees_ready, sound.tells_awake)

    pub tell-Inv : Inv n (tell i j c k s)
    unfolding tell
    tell-Inv = rw (apart, tell) after-Inv
      where
        after-Inv : Inv n (record s { caller = after })
        after-Inv = record {
          role = omega (arith, inv.role, after-sum roles, teller_counts.0);
          lock = omega (arith, inv.lock, after-sum locks, teller_counts.1);
          places = after-places;
          sound =
              after_cases (λ x c. Sound s.cell c) teller-Sound told-Sound
                (λ x other miss. inv.sound x);
          filled = inv.filled;
          unpublished = inv.unpublished;
          attended =
              Attended-le _ _ _ _ s.cell (omega (arith, after-sum contends, teller_counts.3))
                (omega (arith, after-sum completes, teller_counts.2)) inv.attended;
          among =
              after_cases (λ x c. 0 < linked c → x < n) (λ l. lt) (λ l. told_among)
                (λ x other miss l. inv.among x l);
        }
