-- ===== src/Agent/Logged.antt =====
-- The tools beside a log of what the server answered: which concepts it handed out, and which it
-- created. The log is no part of the program; the turn's own lists are compared with it.
use ochakai.Common.{List, [], ◌∷◌, ◌++◌, ◌≡◌, refl, ap, subst}
use ochakai.Common.Result.{Result, ok, err}
use ochakai.Text.{Bytes}
use ochakai.Domain.Content.{Knowledge}
use ochakai.Agent.Tools.{Toolbox}
use ochakai.Agent.Alike.{Same, Alike}

pub record Log : Type 0 where
  pub got : List Bytes
  pub made : List Bytes

abbrev pub empty_log : Log
empty_log = record { got = []; made = [] }

module _ {W : Type 0} where
  -- A concept that is handed out is noted.
  abbrev pub noted_get : Log → W × Result Bytes Knowledge → (W × Log) × Result Bytes Knowledge
  noted_get log (w, ok k) = ((w, record log { got = log.got ++ k.id ∷ [] }), ok k)
  noted_get log (w, err e) = ((w, log), err e)

  -- A concept that is created is noted.
  abbrev pub noted_create : Log → W × Result Bytes Knowledge → (W × Log) × Result Bytes Knowledge
  noted_create log (w, ok k) = ((w, record log { made = log.made ++ k.id ∷ [] }), ok k)
  noted_create log (w, err e) = ((w, log), err e)

  -- The tools with their log.
  abbrev pub logged : Toolbox W → Toolbox (W × Log)
  logged tb = record {
    nfc = tb.nfc;
    parse = tb.parse;
    canonical = tb.canonical;
    encode = tb.encode;
    view = tb.view;
    create = λ k s. noted_create s.1 (tb.create k s.0);
    revisable = λ id document s. tb.revisable id document s.0;
    current = λ id s. tb.current id s.0;
    get = λ id s. noted_get s.1 (tb.get id s.0);
    look = λ c s. (((tb.look c s.0).0, s.1), (tb.look c s.0).1);
  }

  abbrev pub Beside : W → W × Log → Type 0
  Beside w s = w ≡ s.0

  noted_get-Same : (log : Log) (x : W × Result Bytes Knowledge) → Same Beside x (noted_get log x)
  noted_get-Same log (w, ok k) = (refl, refl)
  noted_get-Same log (w, err e) = (refl, refl)

  noted_create-Same :
      (log : Log) (x : W × Result Bytes Knowledge) → Same Beside x (noted_create log x)
  noted_create-Same log (w, ok k) = (refl, refl)
  noted_create-Same log (w, err e) = (refl, refl)

  -- The log changes nothing of what the tools answer.
  pub logged-Alike : (tb : Toolbox W) → Alike tb (logged tb) Beside
  logged-Alike tb = record {
    nfc = λ _. refl;
    parse = λ _. refl;
    canonical = λ _. refl;
    encode = λ _. refl;
    view = λ _. refl;
    create = λ k w s e.
        subst (λ z. Same Beside (tb.create k w) (noted_create s.1 (tb.create k z))) e
          (noted_create-Same s.1 (tb.create k w));
    revisable = λ id document w s e. ap (tb.revisable id document) e;
    current = λ id w s e. ap (tb.current id) e;
    get = λ id w s e.
        subst (λ z. Same Beside (tb.get id w) (noted_get s.1 (tb.get id z))) e
          (noted_get-Same s.1 (tb.get id w));
    look = λ c w s e. (ap (λ z. (tb.look c z).0) e, ap (λ z. (tb.look c z).1) e);
  }
