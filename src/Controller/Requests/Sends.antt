-- ===== src/Controller/Requests/Sends.antt =====
-- Methods that send a known list of requests, one after the other, until one of them fails.
use mathlib.Core.List.{append_assoc, append-nil}
use janus_idp_operator.Prelude.{List, [], ◌++◌, ◌≡◌, refl, sym, ◌∙◌, ap}
use janus_idp_operator.GoError.{Outcome, ok, err, panic}
use janus_idp_operator.Controller.Exec.{Exec, pure, continue, ◌>>◌}
use janus_idp_operator.Controller.Requests.{History, Request}

-- Of the requests `rs` the method has sent a first part, and all of them if it returned no error.
pub record Sent (rs : List Request) (h : History) (r : Outcome (Unit {0}) × History) : Type 0 where
  pub sent : List Request
  pub rest : List Request
  pub split : rs ≡ sent ++ rest
  pub history : r.1 ≡ h ++ sent
  pub complete : r.0 ≡ ok tt → rest ≡ []

abbrev pub Sends : List Request → Exec History (Unit {0}) → Type 0
Sends rs m = (h : History) → Sent rs h (m h)

pub Sends-pure : Sends [] (pure tt)
Sends-pure h = record {
  sent = [];
  rest = [];
  split = refl;
  history = sym (append-nil h);
  complete = λ e. refl;
}

Sent-continue :
    (rs qs : List Request) (n : Exec History (Unit {0})) (h : History) (o : Outcome (Unit {0}))
    (h' : History)
    → Sent rs h (o, h')
    → Sends qs n
    → Sent (rs ++ qs) h (continue o (λ _. n) h')
Sent-continue rs qs n h (ok tt) h' r k =
    let q = k h' in
    record {
      sent = rs ++ q.sent;
      rest = q.rest;
      split = ap (λ l. rs ++ l) q.split ∙ sym (append_assoc rs q.sent q.rest);
      history =
          q.history
          ∙ ap (λ l. l ++ q.sent) (r.history ∙ ap (λ l. h ++ l) all)
          ∙ append_assoc h rs q.sent;
      complete = q.complete;
    }
  where
    all : r.sent ≡ rs
    all = sym (r.split ∙ ap (λ l. r.sent ++ l) (r.complete refl) ∙ append-nil r.sent)
Sent-continue rs qs n h (err e) h' r k = record {
  sent = r.sent;
  rest = r.rest ++ qs;
  split = ap (λ l. l ++ qs) r.split ∙ append_assoc r.sent r.rest qs;
  history = r.history;
  complete = λ p. cc;
}
Sent-continue rs qs n h panic h' r k = record {
  sent = r.sent;
  rest = r.rest ++ qs;
  split = ap (λ l. l ++ qs) r.split ∙ append_assoc r.sent r.rest qs;
  history = r.history;
  complete = λ p. cc;
}

pub Sends-then :
    (rs qs : List Request) (m n : Exec History (Unit {0}))
    → Sends rs m
    → Sends qs n
    → Sends (rs ++ qs) (m >> n)
Sends-then rs qs m n km kn h = Sent-continue rs qs n h (m h).0 (m h).1 (km h) kn

-- If there was no error, the requests were all sent.
pub history-Sent : (rs : List Request) (h h' : History) → Sent rs h (ok tt, h') → h' ≡ h ++ rs
history-Sent rs h h' s =
    s.history
    ∙ ap (λ l. h ++ l) (sym (s.split ∙ ap (λ l. s.sent ++ l) (s.complete refl) ∙ append-nil s.sent))
