-- ===== src/Agent/Replay.antt =====
-- What the rounds of a turn depend on, and what a dry run leaves undone.
use ochakai.Common.{
  ℕ, zero, suc, ◌+◌, ◌<◌, Bool, true, false, not, List, [], ◌∷◌, ◌++◌, some, ◌≡◌, refl, ap, subst,
  arith, length, ◌==◌,
}
use ochakai.Common.Result.{Result}
use ochakai.Text.{◌=?◌}
use ochakai.Text.Space.{trim_space}
use ochakai.Agent.{Message, Answer, Refusal, max_rounds, validate}
use ochakai.Agent.Tools.{Call, Response, Run, Toolbox, call_all}
use ochakai.Agent.Alike.{Same, Alike, if-both, option-both, result-both, call_all-alike}
use ochakai.Agent.Loop.{
  Turn, Exchange, replied, handed, Request, Generated, turn, no_answer, broken, Texts, proposal,
  after_turn, after_generated, rounds, Mode, mode_of, messages, fresh, answer,
}

module _ (x : Texts) {W W' : Type 0} (R : W → W' → Type 0) where
  abbrev SameEnd : W × Result Refusal Answer → W' × Result Refusal Answer → Type 0
  SameEnd = Same R

  after_turn-alike :
      (retried : Bool) (r : Run) {w : W} {w' : W'} {s f : W × Result Refusal Answer}
      {s' f' : W' × Result Refusal Answer} (t : Turn)
      → R w w'
      → SameEnd s s'
      → SameEnd f f'
      → SameEnd (after_turn x retried r w s f t) (after_turn x retried r w' s' f' t)
  unfolding after_turn
  after_turn-alike retried r t h hs hf =
      option-both SameEnd (proposal t.calls) (proposal t.calls) refl
        (if-both SameEnd (not (length t.calls == 0)) hf (
          if-both SameEnd (not (trim_space t.said =? [])) (h, refl)
            (if-both SameEnd retried (h, refl) hs)))
        (λ p. (h, refl))

  after_generated-alike :
      (retried : Bool) (r : Run) {w : W} {w' : W'} {s : W × Result Refusal Answer}
      {s' : W' × Result Refusal Answer} (f : Turn → W × Result Refusal Answer)
      (f' : Turn → W' × Result Refusal Answer) (g : Generated)
      → R w w'
      → SameEnd s s'
      → ((t : Turn) → SameEnd (f t) (f' t))
      → SameEnd (after_generated x retried r w s f g) (after_generated x retried r w' s' f' g)
  unfolding after_generated
  after_generated-alike retried r f f' no_answer h hs hf = if-both SameEnd retried (h, refl) hs
  after_generated-alike retried r f f' broken h hs hf = (h, refl)
  after_generated-alike retried r f f' (turn t) h hs hf = after_turn-alike retried r t h hs (hf t)

-- The calls of a turn, and what comes after them.
module _ {W W' : Type 0} (tb : Toolbox W) (tb' : Toolbox W') (R : W → W' → Type 0)
    (alike : Alike tb tb' R) where
  module _ (next : List Response → Run → W → W × Result Refusal Answer)
      (next' : List Response → Run → W' → W' × Result Refusal Answer) where
    called-alike :
        (cs : List Call) (r : Run) (w : W) (w' : W')
        → R w w'
        → ((answers : List Response) (r : Run) (w : W) (w' : W')
            → R w w'
            → Same R (next answers r w) (next' answers r w'))
        → Same R
            (let (w₁, r₁, answers) = call_all tb cs r w in next answers r₁ w₁)
            (let (w₁, r₁, answers) = call_all tb' cs r w' in next' answers r₁ w₁)
    called-alike cs r w w' h go =
        let (h₁, e, o) = call_all-alike tb tb' R alike cs r w w' h in
        let (w₁, r₁, answers) = call_all tb cs r w in
        let (w₂, r₂, answers') = call_all tb' cs r w' in
        subst (λ z. Same R (next answers r₁ w₁) (next' answers' z w₂)) e
          (subst (λ z. Same R (next answers r₁ w₁) (next' z r₁ w₂)) o (go answers r₁ w₁ w₂ h₁))

module _ (x : Texts) (generate generate' : ℕ → Request → Generated) {W W' : Type 0} (tb : Toolbox W)
    (tb' : Toolbox W') (mode mode' : Mode) (R : W → W' → Type 0) (alike : Alike tb tb' R) where
  rounds-alike :
      (left asked : ℕ) (retried : Bool) (contents : List Exchange) (r : Run) (w : W) (w' : W')
      → R w w'
      → ((n : ℕ) (c : List Exchange)
          → n < asked + left
          → generate n (record { mode = mode; contents = c })
            ≡ generate' n (record { mode = mode'; contents = c }))
      → Same R
          (rounds x generate tb mode left asked retried contents r w)
          (rounds x generate' tb' mode' left asked retried contents r w')
  unfolding rounds
  rounds-alike zero asked retried contents r w w' h same = (h, refl)
  rounds-alike (suc left) asked retried contents r w w' h same =
      subst
        (λ g. Same R (rounds x generate tb mode (suc left) asked retried contents r w) (
          after_generated x retried r w'
            (rounds x generate' tb' mode' left (suc asked) true contents r w')
            (λ t.
              let (w₁, r₁, answers) = call_all tb' t.calls r w' in
              rounds x generate' tb' mode' left (suc asked) retried
                (contents ++ replied t ∷ handed answers ∷ []) r₁ w₁)
            g))
        (same asked contents (omega arith))
        (after_generated-alike x R retried r _ _
          (generate asked (record { mode = mode; contents = contents })) h
          (rounds-alike left (suc asked) true contents r w w' h (λ n c lt. same n c (omega arith)))
          (λ t.
            called-alike tb tb' R alike
              (λ answers.
                rounds x generate tb mode left (suc asked) retried
                  (contents ++ replied t ∷ handed answers ∷ []))
              (λ answers.
                rounds x generate' tb' mode' left (suc asked) retried
                  (contents ++ replied t ∷ handed answers ∷ []))
              t.calls r w w' h
              (λ answers r₁ w₁ w₂ h₁.
                rounds-alike left (suc asked) retried _ r₁ w₁ w₂ h₁
                  (λ n c lt. same n c (omega arith)))))

-- The whole turn, from related servers.
pub answer-alike :
    (x : Texts) (generate generate' : ℕ → Request → Generated) {W W' : Type 0} (tb : Toolbox W)
    (tb' : Toolbox W') (R : W → W' → Type 0)
    → Alike tb tb' R
    → (read_only dry_run dry_run' : Bool) (msgs : List Message) (w : W) (w' : W') → R w w'
    → ((n : ℕ) (c : List Exchange)
        → n < max_rounds
        → generate n (record { mode = mode_of dry_run read_only; contents = c })
          ≡ generate' n (record { mode = mode_of dry_run' read_only; contents = c }))
    → Same R
        (answer tb (some (record { texts = x; generate = generate })) read_only dry_run msgs w)
        (answer tb' (some (record { texts = x; generate = generate' })) read_only dry_run' msgs w')
unfolding answer
answer-alike x generate generate' tb tb' R alike read_only dry_run dry_run' msgs w w' h same =
    result-both (Same R) (validate msgs) (validate msgs) refl (λ e. (h, refl))
      (λ c.
        rounds-alike x generate generate' tb tb' (mode_of dry_run read_only)
          (mode_of dry_run' read_only) R alike max_rounds 0 false (messages c) fresh w w' h same)

-- A server beside itself.
pub itself : {W : Type 0} (tb : Toolbox W) → Alike tb tb ◌≡◌
itself tb = record {
  nfc = λ _. refl;
  parse = λ _. refl;
  canonical = λ _. refl;
  encode = λ _. refl;
  view = λ _. refl;
  create = λ k w w' e. (ap (λ z. (tb.create k z).0) e, ap (λ z. (tb.create k z).1) e);
  revisable = λ id s w w' e. ap (tb.revisable id s) e;
  current = λ id w w' e. ap (tb.current id) e;
  get = λ id w w' e. (ap (λ z. (tb.get id z).0) e, ap (λ z. (tb.get id z).1) e);
  look = λ c w w' e. (ap (λ z. (tb.look c z).0) e, ap (λ z. (tb.look c z).1) e);
}

same_pair : {A B : Type 0} {x y : A × B} → Same ◌≡◌ x y → x ≡ y
same_pair (e, f) i = (e i, f i)

-- The model is asked sixteen times at most: two models that answer alike that often make the same turn,
-- and leave the server alike.
pub answer-rounds :
    {W : Type 0} (tb : Toolbox W) (x : Texts) (generate generate' : ℕ → Request → Generated)
    (read_only dry_run : Bool) (msgs : List Message) (w : W)
    → ((n : ℕ) (q : Request) → n < max_rounds → generate n q ≡ generate' n q)
    → answer tb (some (record { texts = x; generate = generate })) read_only dry_run msgs w
      ≡ answer tb (some (record { texts = x; generate = generate' })) read_only dry_run msgs w
answer-rounds tb x generate generate' read_only dry_run msgs w same = same_pair (
    answer-alike x generate generate' tb tb ◌≡◌ (itself tb) read_only dry_run dry_run msgs w w refl
      (λ n c lt. same n (record { mode = mode_of dry_run read_only; contents = c }) lt))
