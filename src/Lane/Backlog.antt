-- ===== src/Lane/Backlog.antt =====
-- How the mandatory backlog of a lane of asyncengine/strategy.go stands to its counters: each entry
-- has an admission cutoff and a settle target, and owes an ordering to a prefix of the accepted
-- tasks that are not settled.
use pit_go.Base.{
  ℕ, ◌+◌, ◌≤◌, ◌<◌, ◌≡◌, refl, ◌&&◌, Bool-cases, inl, inr, Bool, false, List, [], ◌∷◌, ◌++◌, map,
  arith, ltb, leb, length, count, All, Picks, Picks-count,
}
use pit_go.Lane.Queue.{Entry, recapture, raise_target}
use pit_go.Lane.System.{Flight, drop_head, remark}
use pit_go.Lane.Taking.{seen}

-- The producers in flight that were admitted by the cutoff, and those admitted later.
abbrev pub older : ℕ → List Flight → ℕ
older cutoff = count (λ f. leb f.ticket cutoff)

abbrev pub newer : ℕ → List Flight → ℕ
newer cutoff = count (λ f. ltb cutoff f.ticket)

pub older-le-length : (c : ℕ) (fs : List Flight) → older c fs ≤ length fs
older-le-length c [] = omega arith
older-le-length c (f ∷ fs) = ground (arith, older-le-length c fs)

pub newer-eq-zero : (c : ℕ) (fs : List Flight) → All (λ f. f.ticket ≤ c) fs → newer c fs ≡ 0
newer-eq-zero c [] h = refl
newer-eq-zero c (f ∷ fs) h = ground (arith, h.0, newer-eq-zero c fs h.1)

-- One entry and its mark, in a lane with these counters and flights, where `done` accepted tasks
-- are settled.
pub record EntryInv (admitted settled : ℕ) (flights : List Flight) (done : ℕ) (e : Entry) (mark : ℕ)
    : Type 0 where
  pub above_cutoff : e.admitted_cutoff ≤ e.settle_target
  pub reachable : e.settle_target + newer e.admitted_cutoff flights ≤ admitted
  pub holds_back :
      done < mark → settled + mark + older e.admitted_cutoff flights ≤ e.settle_target + done

abbrev pub Backlog : ℕ → ℕ → List Flight → ℕ → List Entry → List ℕ → Type 0
Backlog a s fs d [] [] = Unit
Backlog a s fs d [] (_ ∷ _) = ⊥
Backlog a s fs d (_ ∷ _) [] = ⊥
Backlog a s fs d (e ∷ es) (n ∷ ns) = EntryInv a s fs d e n × Backlog a s fs d es ns

-- A change of counters and flights that each entry follows.
pub Backlog-map :
    {a s d a' s' d' : ℕ} {fs fs' : List Flight} (g : Entry → Entry)
    → ((e : Entry) (n : ℕ) → EntryInv a s fs d e n → EntryInv a' s' fs' d' (g e) n)
    → (es : List Entry) (ns : List ℕ) → Backlog a s fs d es ns
    → Backlog a' s' fs' d' (map g es) ns
Backlog-map g step [] [] h = tt
Backlog-map g step [] (_ ∷ _) h = h
Backlog-map g step (_ ∷ _) [] h = h
Backlog-map g step (e ∷ es) (n ∷ ns) h = (step e n h.0, Backlog-map g step es ns h.1)

pub Backlog-keep :
    {a s d a' s' d' : ℕ} {fs fs' : List Flight}
    → ((e : Entry) (n : ℕ) → EntryInv a s fs d e n → EntryInv a' s' fs' d' e n)
    → (es : List Entry) (ns : List ℕ) → Backlog a s fs d es ns
    → Backlog a' s' fs' d' es ns
Backlog-keep step [] [] h = tt
Backlog-keep step [] (_ ∷ _) h = h
Backlog-keep step (_ ∷ _) [] h = h
Backlog-keep step (e ∷ es) (n ∷ ns) h = (step e n h.0, Backlog-keep step es ns h.1)

module _ {a s d : ℕ} {fs : List Flight} (e : Entry) (n : ℕ) (v : EntryInv a s fs d e n) where
  -- A new ticket lies beyond every cutoff.
  pub admit-EntryInv : (f : Flight) → f.ticket ≡ a + 1 → EntryInv (a + 1) s (f ∷ fs) d e n
  admit-EntryInv f t = record {
    above_cutoff = v.above_cutoff;
    reachable = ground (arith, v.reachable);
    holds_back = λ h. ground (arith, v.holds_back h, v.reachable, v.above_cutoff);
  }

  pub send-EntryInv : (f : Flight) {fs' : List Flight} → Picks f fs fs' → EntryInv a s fs' d e n
  send-EntryInv f p = record {
    above_cutoff = v.above_cutoff;
    reachable =
        ground (arith, v.reachable, Picks-count (λ (g : Flight). ltb e.admitted_cutoff g.ticket) p);
    holds_back = λ h.
        ground
          (arith, v.holds_back h, Picks-count (λ (g : Flight). leb g.ticket e.admitted_cutoff) p);
  }

  -- An abandoned send settles its ticket: it brings the entry nearer only within the cutoff.
  pub abandon-EntryInv :
      (f : Flight) {fs' : List Flight}
      → Picks f fs fs'
      → EntryInv a (s + 1) fs' d (raise_target f.ticket e) n
  abandon-EntryInv f p = record {
    above_cutoff = ground (arith, v.above_cutoff);
    reachable =
        ground (arith, v.reachable, Picks-count (λ (g : Flight). ltb e.admitted_cutoff g.ticket) p);
    holds_back = λ h.
        ground
          (arith, v.holds_back h, Picks-count (λ (g : Flight). leb g.ticket e.admitted_cutoff) p);
  }

  -- The worker settles an accepted task.
  pub settle-EntryInv : EntryInv a (s + 1) fs (d + 1) e n
  settle-EntryInv = record {
    above_cutoff = v.above_cutoff;
    reachable = v.reachable;
    holds_back = λ h. omega (arith, v.holds_back (omega arith));
  }

-- An entry that is queued now, or whose cutoff is taken anew, waits for all that is accepted.
pub fresh-EntryInv :
    (a s d w : ℕ) (fs : List Flight)
    → a ≡ s + length fs + w
    → All (λ f. f.ticket ≤ a) fs
    → (e : Entry) (n : ℕ) → e.admitted_cutoff ≡ a
    → e.settle_target ≡ a
    → n ≡ d + w
    → EntryInv a s fs d e n
fresh-EntryInv a s d w fs conserved tickets e n c t m = record {
  above_cutoff = omega arith;
  reachable = rw c (omega (arith, newer-eq-zero a fs tickets));
  holds_back = λ h. omega (arith, older-le-length e.admitted_cutoff fs);
}

module _ (a s d : ℕ) (fs : List Flight) where
  pub Backlog-nil : (es : List Entry) (ns : List ℕ) → Backlog a s fs d es ns → es ≡ [] → ns ≡ []
  Backlog-nil [] [] h e = refl
  Backlog-nil [] (_ ∷ _) h e = absurd h
  Backlog-nil (_ ∷ _) ns h e = cc

  pub Backlog-snoc :
      (e : Entry) (n : ℕ)
      → EntryInv a s fs d e n
      → (es : List Entry) (ns : List ℕ) → Backlog a s fs d es ns
      → Backlog a s fs d (es ++ e ∷ []) (ns ++ n ∷ [])
  Backlog-snoc e n new [] [] h = (new, tt)
  Backlog-snoc e n new [] (_ ∷ _) h = absurd h
  Backlog-snoc e n new (_ ∷ _) [] h = absurd h
  Backlog-snoc e n new (_ ∷ es) (_ ∷ ns) h = (h.0, Backlog-snoc e n new es ns h.1)

  -- The head as `takeMandatoryCleanup` sees it, and its mark then.
  pub remark-Backlog :
      (w : ℕ)
      → a ≡ s + length fs + w
      → All (λ f. f.ticket ≤ a) fs
      → (fence_closed : Bool) (now : ℕ) → now ≡ d + w
      → (e : Entry) (es : List Entry) (ns : List ℕ) → Backlog a s fs d (e ∷ es) ns
      → Backlog a s fs d (seen fence_closed a e ∷ es) (remark fence_closed now (e ∷ es) ns)
  remark-Backlog w c t fence_closed now m e es [] h = absurd h
  remark-Backlog w c t fence_closed now m e es (n ∷ ns) h =
      elim (Bool-cases (e.wait_submit_fence && fence_closed)) [
        | inl b ↦ rw b (fresh-EntryInv a s d w fs c t (recapture a e) now refl refl m, h.1)
        | inr b ↦ rw b h
      ]

  pub Backlog-drop :
      (e : Entry) (es : List Entry) (ns : List ℕ)
      → Backlog a s fs d (e ∷ es) ns
      → Backlog a s fs d es (drop_head ns)
  Backlog-drop e es [] h = absurd h
  Backlog-drop e es (n ∷ ns) h = h.1

-- The mark of the head.
abbrev pub head_mark : List ℕ → ℕ
head_mark [] = 0
head_mark (n ∷ _) = n

pub Backlog-head :
    (a s d : ℕ) (fs : List Flight) (e : Entry) (es : List Entry) (ns : List ℕ)
    → Backlog a s fs d (e ∷ es) ns
    → EntryInv a s fs d e (head_mark ns)
Backlog-head a s d fs e es [] h = absurd h
Backlog-head a s d fs e es (n ∷ ns) h = h.0

pub remark_unfenced : (now : ℕ) (es : List Entry) (ns : List ℕ) → remark false now es ns ≡ ns
remark_unfenced now [] ns = refl
remark_unfenced now (e ∷ es) [] = refl
remark_unfenced now (e ∷ es) (n ∷ ns) = ground arith
