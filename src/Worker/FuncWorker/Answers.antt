-- ===== src/Worker/FuncWorker/Answers.antt =====
-- src/worker/v1/func_worker.cpp: with pipes, every call that the engine dispatches is answered.
use nightcore.Prelude.{◌≡◌, Bool, true, false, List, [], ◌∷◌, ◌++◌, if◌then◌else◌}
use nightcore.Prelude.Result.{Result, Returns}
use nightcore.Protocol.{FuncCall}
use nightcore.Protocol.Message.{Message}
use nightcore.Worker.FuncWorker.{FuncWorker}
use nightcore.Worker.FuncWorker.Buffers.{IsTidy}
use nightcore.Worker.WorkerLib.Answers.{IsAnswer}

-- Between two calls no output is kept.
pub record IsIdle (w : FuncWorker) : Type 0 where
  pub tidy : IsTidy w
  pub cleared : w.invoke_func_resources ≡ []

-- The last message to the engine is the answer to the call, and the worker is idle.
pub record IsDone (c : FuncCall) (w : FuncWorker) : Type 0 where
  pub before : List Message
  pub response : Message
  pub sent : w.sent ≡ before ++ response ∷ []
  pub answer : IsAnswer c response
  pub idle : IsIdle w

pub if-Returns_true {ℓ} :
    {A : Type ℓ} (b : Bool) (x y : Result A) (P : A → Type 0)
    → b ≡ true
    → Returns x P
    → Returns (if b then x else y) P
if-Returns_true true x y P e h = h
if-Returns_true false x y P e h = cc e
