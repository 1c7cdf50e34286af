-- ===== src/Output/Xml/ReadBack.antt =====
-- The reader gets a report's elements back from its XML document.
use rnmap.Base.{
  ℕ, ◌≡◌, refl, ap, ◌∙◌, false, List, [], ◌∷◌, ◌++◌, append_assoc, append-nil, Option, none, some,
  arith,
}
use rnmap.Text.{Text, codes}
use rnmap.Text.Number.{decimal, IsNumeric, decimal-IsNumeric}
use rnmap.Report.{PortResult, ServiceInfo, display_protocol, display_state, Protocol, PortState}
use rnmap.Output.Xml.{x, render_service, render_port, optional}
use rnmap.Output.Xml.Reader.{Tag, Token, opened, after_attr, content, at, step_in, run, has_attr}
use rnmap.Output.Xml.Document.{tag, if_given, service, port}
use rnmap.Output.Xml.Pieces.{IsPlain, IsRaw, IsName, run-raw, run-x, run-attribute}

-- The option is empty, or its text is plain.
abbrev pub IsPlainGiven : Option Text → Type 0
IsPlainGiven none = Unit
IsPlainGiven (some s) = IsPlain s

abbrev pub IsPlainService : Option ServiceInfo → Type 0
IsPlainService none = Unit
IsPlainService (some s) = IsPlain s.name × IsPlainGiven s.product × IsPlainGiven s.version

abbrev pub IsPlainPort : PortResult → Type 0
IsPlainPort p = IsPlain p.reason × IsPlainService p.service

run-optional :
    (t : Tag) (names : List Text) (out : List Token) (c : ℕ) (n : Text) (o : Option Text)
    (rest : Text)
    → IsName (c ∷ n)
    → has_attr (c ∷ n) t.attrs ≡ false
    → IsPlainGiven o
    → run (at (after_attr t) names out) (optional (c ∷ n) o ++ rest)
      ≡ run (at (after_attr (record t { attrs = t.attrs ++ if_given (c ∷ n) o })) names out) rest
unfolding optional
run-optional t names out c n none rest h fresh plain = rw append-nil
run-optional t names out c n (some s) rest h fresh plain =
    run-attribute t names out (after_attr t) c n (x s) s rest (unfold step_in in refl) h fresh
      (λ v rest. run-x t (c ∷ n) names out s v rest plain)

version_fresh :
    (o : Option Text) → has_attr (codes "version") (if_given (codes "product") o) ≡ false
unfolding has_attr
version_fresh none = refl
version_fresh (some s) = refl

numeric_to_raw : (s : Text) → IsNumeric s → IsRaw s
numeric_to_raw [] h = tt
numeric_to_raw (c ∷ s) h = (ground (arith, h.0), numeric_to_raw s h.1)

pub decimal-IsRaw : (n : ℕ) → IsRaw (decimal n)
decimal-IsRaw n = numeric_to_raw (decimal n) (decimal-IsNumeric n)

display_protocol-IsRaw : (p : Protocol) → IsRaw (display_protocol p)
unfolding display_protocol
display_protocol-IsRaw Protocol.tcp = omega arith
display_protocol-IsRaw Protocol.udp = omega arith

display_state-IsRaw : (s : PortState) → IsRaw (display_state s)
unfolding display_state
display_state-IsRaw PortState.open_port = omega arith
display_state-IsRaw PortState.closed = omega arith
display_state-IsRaw PortState.filtered = omega arith
display_state-IsRaw PortState.unfiltered = omega arith

module _ (name : Text) (names : List Text) where
  run-service :
      (o : Option ServiceInfo) (out : List Token) (rest : Text)
      → IsPlainService o
      → run (at content (name ∷ names) out) (render_service o ++ rest)
        ≡ run (at content (name ∷ names) (out ++ service o)) rest
  unfolding render_service run step_in
  run-service none out rest plain = rw append-nil
  run-service (some s) out rest plain =
      let start = tag (codes "service") [] in
      let named = tag (codes "service") ((codes "name", s.name) ∷ []) in
      let made = record named { attrs = named.attrs ++ if_given (codes "product") s.product } in
      simp append_assoc (
        run-x start (codes "name") (name ∷ names) out s.name [] _ plain.0
        ∙ run-optional named (name ∷ names) out b'p' (codes "roduct") s.product _ (omega arith)
            (unfold has_attr in refl) plain.1
        ∙ run-optional made (name ∷ names) out b'v' (codes "ersion") s.version _ (omega arith)
            (unfold has_attr in version_fresh s.product) plain.2)

gather :
    (out : List Token) (a b : Token) (inner : List Token) (e : Token)
    → (((out ++ a ∷ []) ++ b ∷ []) ++ inner) ++ e ∷ [] ≡ out ++ (a ∷ b ∷ (inner ++ e ∷ []))
gather out a b inner e = simp append_assoc

module _ (name : Text) (names : List Text) where
  pub run-port :
      (p : PortResult) (out : List Token) (rest : Text)
      → IsPlainPort p
      → run (at content (name ∷ names) out) (render_port p ++ rest)
        ≡ run (at content (name ∷ names) (out ++ port p)) rest
  unfolding render_port run step_in
  run-port p out rest plain =
      let start = tag (codes "port") [] in
      let protocol = tag (codes "port") ((codes "protocol", display_protocol p.protocol) ∷ []) in
      let whole = opened (
        tag (codes "port") (
          (codes "protocol", display_protocol p.protocol)
          ∷ (codes "portid", decimal p.port)
          ∷ [])) in
      let state = tag (codes "state") [] in
      let shown = tag (codes "state") ((codes "state", display_state p.state) ∷ []) in
      let out' = out ++ whole ∷ [] in
      simp append_assoc (
        run-raw start (codes "protocol") (name ∷ names) out (display_protocol p.protocol) [] _
          (display_protocol-IsRaw p.protocol)
        ∙ run-raw protocol (codes "portid") (name ∷ names) out (decimal p.port) [] _
            (decimal-IsRaw p.port)
        ∙ run-raw state (codes "state") (codes "port" ∷ name ∷ names) out' (display_state p.state)
            [] _ (display_state-IsRaw p.state)
        ∙ run-x shown (codes "reason") (codes "port" ∷ name ∷ names) out' p.reason [] _ plain.0
        ∙ run-service (codes "port") (name ∷ names) p.service _ _ plain.1
        ∙ ap (λ o. run (at content (name ∷ names) o) rest) (gather out _ _ (service p.service) _))
