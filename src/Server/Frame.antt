-- ===== src/Server/Frame.antt =====
-- internal/server/main.go: what every operation leaves alone. No operation but the start of a request
-- puts an id in flight or opens an exchange: the others take ids out, and settle what waits.
use mmar.Prelude.Maps.{lookup}
use mmar.Prelude.{ℕ, ◌≡◌, refl, sym, ◌∙◌, some, arith, nat_eq, ◌⊎◌, inl, inr}
use mmar.Server.Cancel.{cancel_progress, cancel}
use mmar.Server.State.{
  Cause, Progress, waiting, answered, cancelled, Exchange, MmarServer, update, Running, running,
  crashed,
}

-- How far an exchange may go: one that waits anywhere, one that is settled nowhere.
abbrev pub Advances : Progress → Progress → Type 0
Advances p q = (p ≡ waiting) ⊎ (q ≡ p)

pub record Frame (s s' : MmarServer) : Type 0 where
  pub fewer :
      (i req_id k : ℕ)
      → lookup req_id (s'.shareds i).inflight ≡ some k
      → lookup req_id (s.shareds i).inflight ≡ some k
  pub advances : (k : ℕ) → Advances (s.exchanges k).progress (s'.exchanges k).progress

pub Frame-refl : (s : MmarServer) → Frame s s
Frame-refl s = record { fewer = λ i req_id k h. h; advances = λ k. inr refl }

pub Advances-trans : (p q r : Progress) → Advances p q → Advances q r → Advances p r
Advances-trans p q r (inl e) h = inl e
Advances-trans p q r (inr e) (inl f) = inl (sym e ∙ f)
Advances-trans p q r (inr e) (inr f) = inr (f ∙ e)

pub Frame-trans : {s t u : MmarServer} → Frame s t → Frame t u → Frame s u
Frame-trans f g = record {
  fewer = λ i req_id k h. f.fewer i req_id k (g.fewer i req_id k h);
  advances = λ k. Advances-trans _ _ _ (f.advances k) (g.advances k);
}

-- The tables that a request needs are those of the other state.
pub Frame-same :
    {s s' : MmarServer}
    → ((i : ℕ) → (s'.shareds i).inflight ≡ (s.shareds i).inflight)
    → ((k : ℕ) → s'.exchanges k ≡ s.exchanges k)
    → Frame s s'
Frame-same same kept = record {
  fewer = λ i req_id k h. rw (same i) at h;
  advances = λ k. rw (kept k) (inr refl);
}

-- A run that ends somewhere ends within the frame.
abbrev pub Frames : MmarServer → Running MmarServer → Type 0
Frames s r = (s' : MmarServer) → r ≡ running s' → Frame s s'

pub running-Frames : {s s' : MmarServer} → Frame s s' → Frames s (running s')
running-Frames {s} {s'} f u h = let e : s' ≡ u = cc in rw (← e) f

pub crashed-Frames : {s : MmarServer} → Frames s crashed
crashed-Frames u h = cc

pub Frames-trans : {s t : MmarServer} {r : Running MmarServer} → Frame s t → Frames t r → Frames s r
Frames-trans f g u h = Frame-trans f (g u h)

cancel_progress-Advances : (why : Cause) (p : Progress) → Advances p (cancel_progress why p)
unfolding cancel_progress
cancel_progress-Advances why waiting = inl refl
cancel_progress-Advances why (answered r) = inr refl
cancel_progress-Advances why (cancelled first) = inr refl

-- A change of one exchange that its progress allows.
pub exchange-Frame :
    (k : ℕ) (x : Exchange) (s : MmarServer)
    → Advances (s.exchanges k).progress x.progress
    → Frame s (record s { exchanges = update s.exchanges k x })
exchange-Frame k x s h = record {
  fewer = λ i req_id j found. found;
  advances = λ j. ground (arith, h);
}

pub cancel-Frame : (k : ℕ) (why : Cause) (s : MmarServer) → Frame s (cancel k why s)
unfolding cancel
cancel-Frame k why s = exchange-Frame k _ s (cancel_progress-Advances why (s.exchanges k).progress)
