-- ===== src/FileManager/Batches.antt =====
-- src/FileManager.cpp: the batches of images over the life of a session.
use rc2compute.Prelude.{
  zero, suc, ◌≡◌, ◌⊎◌, inl, inr, refl, ap, sym, ◌∙◌, true, false, List, [], ◌∷◌, ◌++◌, append-nil,
  append_assoc, arith, length, ltb, if◌then◌else◌,
}
use rc2compute.Numbers.{ℤ, pos, negsuc, lt_ℤ, succ}
use rc2compute.World.{World}
use rc2compute.FileSource.Stable.{anything-IsStable}
use rc2compute.FileManager.{Manager}
use rc2compute.FileManager.Window.{Invariant, IsCollected}
use rc2compute.FileManager.Steps.{Reaches, Reaches-Holds}

lt_ℤ_trans : (a b c : ℤ) → lt_ℤ a b ≡ true → lt_ℤ b c ≡ true → lt_ℤ a c ≡ true
unfolding lt_ℤ
lt_ℤ_trans (pos a) (pos b) (pos c) h k = ground (arith, h, k)
lt_ℤ_trans (negsuc a) (pos b) (pos c) h k = refl
lt_ℤ_trans (negsuc a) (negsuc b) (pos c) h k = refl
lt_ℤ_trans (negsuc a) (negsuc b) (negsuc c) h k = ground (arith, h, k)
lt_ℤ_trans (pos a) (negsuc b) c h k = absurd (ground (arith, h))
lt_ℤ_trans (pos a) (pos b) (negsuc c) h k = absurd (ground (arith, k))
lt_ℤ_trans (negsuc a) (pos b) (negsuc c) h k = absurd (ground (arith, k))

lt_ℤ-succ : (a : ℤ) → lt_ℤ a (succ a) ≡ true
unfolding lt_ℤ succ
lt_ℤ-succ (pos n) = ground arith
lt_ℤ-succ (negsuc zero) = refl
lt_ℤ-succ (negsuc (suc n)) = ground arith

module _ (first : ℤ) (old : List ℤ) where
  -- The batch is the first one and ids were only added, or it is a later one.
  abbrev Grown : ℤ → List ℤ → Type 0
  Grown batch ids =
      ((batch ≡ first) × ((more : List ℤ) × (ids ≡ old ++ more))) ⊎ (lt_ℤ first batch ≡ true)

  stored : (batch id : ℤ) (ids : List ℤ) → Grown batch ids → Grown batch (ids ++ id ∷ [])
  stored batch id ids (inl (e, (more, f))) =
      inl (e, (more ++ id ∷ [], ap (λ l. l ++ id ∷ []) f ∙ append_assoc old more (id ∷ [])))
  stored batch id ids (inr later) = inr later

  started :
      (batch : ℤ) (ids : List ℤ)
      → Grown batch ids
      → Grown (if ltb 0 (length ids) then succ batch else batch) []
  started batch [] h = h
  started batch (i ∷ ids) (inl (e, kept)) =
      let some_ids : ltb 0 (suc (length ids)) ≡ true = ground arith in
      inr (rw (some_ids, e) (lt_ℤ-succ first))
  started batch (i ∷ ids) (inr later) =
      let some_ids : ltb 0 (suc (length ids)) ≡ true = ground arith in
      inr (rw some_ids (lt_ℤ_trans first batch (succ batch) later (lt_ℤ-succ batch)))

  -- A batch that is chosen is not chosen again.
  chosen_once :
      lt_ℤ (pos 0) first ≡ true
      → (batch next : ℤ) (ids : List ℤ) → lt_ℤ (pos 0) batch ≡ false
      → Grown batch ids
      → Grown next ids
  chosen_once chosen batch next ids off (inl (e, kept)) =
      absurd (ground (arith, chosen, off, ap (λ b. lt_ℤ (pos 0) b) e))
  chosen_once chosen batch next ids off (inr later) =
      absurd (ground (arith, off, lt_ℤ_trans (pos 0) first batch chosen later))

  Grown-IsCollected : lt_ℤ (pos 0) first ≡ true → IsCollected Grown
  Grown-IsCollected chosen = record { chooses = chosen_once chosen; stores = stored }

  -- Nothing is said of the files, the flag and the timers.
  growing : (w : World) → lt_ℤ (pos 0) first ≡ true → Invariant w
  growing w chosen = record {
    Flags = λ flag timers. Unit {0};
    Files = λ s. Unit {0};
    Images = Grown;
    stable = anything-IsStable w;
    collected = Grown-IsCollected chosen;
  }

module _ (w : World) where
  -- A manager that has chosen a batch number. After any file events, notifications, commands and timers, in any
  -- order, also after throws: if the batch number is the same, the ids of images that were collected
  -- are still there, in their order and before any new ones; otherwise the batch number is larger.
  pub Reaches-Grown :
      (s t : Manager w)
      → lt_ℤ (pos 0) s.session_image_batch ≡ true
      → Reaches w s t
      → ((t.session_image_batch ≡ s.session_image_batch)
          × ((more : List ℤ) × (t.image_ids ≡ s.image_ids ++ more)))
        ⊎ (lt_ℤ s.session_image_batch t.session_image_batch ≡ true)
  unfolding growing
  Reaches-Grown s t chosen r =
      (Reaches-Holds w (growing s.session_image_batch s.image_ids w chosen)
        (record { starts = λ n k. tt }) (started s.session_image_batch s.image_ids)
        (λ flag n p k. tt) s t
        (record { at = tt; files = tt; images = inl (refl, ([], sym (append-nil s.image_ids))) })
        r).images
