-- ===== src/Bpmn/Contains.antt =====
-- Texts that contain others, for the files that src/lib/BpmnParser.ts writes.
use Prim.Native.String.{◌++◌}
use Prim.Native.String.append
use text.Mathlib.TextLemmas.{append_assoc, append-nil}
use zeebe_client_node_js.Base.{List, [], ◌∷◌, String, ◌≡◌, inl, inr, sym, ◌∙◌, ap}
use zeebe_client_node_js.Bpmn.Unique.{◌∈◌}
use zeebe_client_node_js.Bpmn.Names.{join}

-- The second text stands somewhere in the first.
abbrev pub Contains : String → String → Type 0
Contains s part = (a : String) × (b : String) × (s ≡ a ++ (part ++ b))

pub Contains-here : (part b : String) → Contains (part ++ b) part
Contains-here part b = ("", b, sym (append.nil (part ++ b)))

pub Contains-self : (part : String) → Contains part part
Contains-self part = ("", "", sym (append.nil (part ++ "") ∙ append-nil part))

-- A text that is followed by more.
pub Contains-split :
    (lead middle close rest : String)
    → Contains (lead ++ (middle ++ (close ++ rest))) (lead ++ (middle ++ close))
Contains-split lead middle close rest = (
  "",
  rest,
  sym (
      append.nil _
      ∙ append_assoc lead (middle ++ close) rest
      ∙ ap (λ z. lead ++ z) (append_assoc middle close rest)),
)

pub Contains-left : (p s part : String) → Contains s part → Contains (p ++ s) part
Contains-left p s part (a, b, e) =
    (p ++ a, b, ap (λ z. p ++ z) e ∙ sym (append_assoc p a (part ++ b)))

pub Contains-right : (s p part : String) → Contains s part → Contains (s ++ p) part
Contains-right s p part (a, b, e) = (
  a,
  b ++ p,
  ap (λ z. z ++ p) e ∙ append_assoc a (part ++ b) p ∙ ap (λ z. a ++ z) (append_assoc part b p),
)

pub Contains-join :
    (separator part : String) (ps : List String) → part ∈ ps → Contains (join separator ps) part
unfolding join
Contains-join separator part [] h = elim h [ ]
Contains-join separator part (p ∷ []) (inl e) = rw e (Contains-self p)
Contains-join separator part (p ∷ []) (inr h) = elim h [ ]
Contains-join separator part (p ∷ (q ∷ ps)) (inl e) =
    rw e (Contains-here p (separator ++ join separator (q ∷ ps)))
Contains-join separator part (p ∷ (q ∷ ps)) (inr h) =
    Contains-left p (separator ++ join separator (q ∷ ps)) part (
      Contains-left separator (join separator (q ∷ ps)) part
        (Contains-join separator part (q ∷ ps) h))

pub Contains-trans :
    (s part inner : String) → Contains s part → Contains part inner → Contains s inner
Contains-trans s part inner (a, b, e) h =
    rw e (Contains-left a (part ++ b) inner (Contains-right part b inner h))
