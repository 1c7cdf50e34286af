-- ===== src/Output/Xml/Frame.antt =====
-- The reader run over the start and the end of a document.
use rnmap.Base.{◌≡◌, ap, ◌∙◌, List, [], ◌∷◌, ◌++◌, append_assoc}
use rnmap.Text.{Text, codes, join}
use rnmap.Text.Number.{decimal}
use rnmap.Report.{ScanReport, host_count, up_count}
use rnmap.Output.Formats.{Printers, attribute, line}
use rnmap.Output.Xml.{x}
use rnmap.Output.Xml.Reader.{Tag, Token, opened, closed, lone, epilog, content, at, step_in, run}
use rnmap.Output.Xml.Document.{tag}
use rnmap.Output.Xml.Pieces.{IsPlain, IsRaw, run-raw, run-x}
use rnmap.Output.Xml.ReadBack.{decimal-IsRaw}

module _ {Time : Type 0} (printers : Printers Time) (r : ScanReport Time) where
  abbrev pub start_text : Text
  start_text =
      codes "<rnmaprun"
      ++ (attribute (codes "scanner") (x r.scanner)
          ++ (attribute (codes "version") (x r.version)
              ++ (attribute (codes "args") (x (join (codes " ") r.args))
                  ++ (attribute (codes "start") (printers.timestamp r.started_at) ++ codes ">"))))

  abbrev pub root : Tag
  root = tag (codes "rnmaprun") (
      (codes "scanner", r.scanner)
      ∷ (codes "version", r.version)
      ∷ (codes "args", join (codes " ") r.args)
      ∷ (codes "start", printers.timestamp r.started_at)
      ∷ [])

  pub run-start :
      (rest : Text)
      → IsPlain r.scanner
      → IsPlain r.version
      → IsPlain (join (codes " ") r.args)
      → IsRaw (printers.timestamp r.started_at)
      → run (at content [] []) (line start_text ++ rest)
        ≡ run (at content (codes "rnmaprun" ∷ []) (opened root ∷ [])) rest
  unfolding run step_in attribute
  run-start rest scanner version args start =
      let name = codes "rnmaprun" in
      let a : Text × Text = (codes "scanner", r.scanner) in
      let b : Text × Text = (codes "version", r.version) in
      let c : Text × Text = (codes "args", join (codes " ") r.args) in
      simp append_assoc (
        run-x (tag name []) (codes "scanner") [] [] r.scanner [] _ scanner
        ∙ run-x (tag name (a ∷ [])) (codes "version") [] [] r.version [] _ version
        ∙ run-x (tag name (a ∷ b ∷ [])) (codes "args") [] [] (join (codes " ") r.args) [] _ args
        ∙ run-raw (tag name (a ∷ b ∷ c ∷ [])) (codes "start") [] []
            (printers.timestamp r.started_at) [] _ start)

  abbrev pub end_text : Text
  end_text =
      line (
        codes "  <runstats><finished"
        ++ (attribute (codes "time") (printers.timestamp r.ended_at)
            ++ (attribute (codes "elapsed") (printers.secs 3 r.elapsed)
                ++ (codes "/><hosts"
                    ++ (attribute (codes "up") (decimal (up_count r))
                        ++ (attribute (codes "total") (decimal (host_count r))
                            ++ codes "/></runstats>"))))))
      ++ line (codes "</rnmaprun>")

  abbrev pub end_tokens : List Token
  end_tokens =
      opened (tag (codes "runstats") [])
      ∷ lone (
          tag (codes "finished") (
            (codes "time", printers.timestamp r.ended_at)
            ∷ (codes "elapsed", printers.secs 3 r.elapsed)
            ∷ []))
      ∷ lone (
          tag (codes "hosts")
            ((codes "up", decimal (up_count r)) ∷ (codes "total", decimal (host_count r)) ∷ []))
      ∷ closed (codes "runstats")
      ∷ closed (codes "rnmaprun")
      ∷ []

  gather_end :
      (out : List Token) (a b c d e : Token)
      → ((((out ++ a ∷ []) ++ b ∷ []) ++ c ∷ []) ++ d ∷ []) ++ e ∷ []
        ≡ out ++ (a ∷ b ∷ c ∷ d ∷ e ∷ [])
  gather_end out a b c d e = simp append_assoc

  pub run-end :
      (out : List Token)
      → IsRaw (printers.timestamp r.ended_at)
      → IsRaw (printers.secs 3 r.elapsed)
      → run (at content (codes "rnmaprun" ∷ []) out) end_text ≡ at epilog [] (out ++ end_tokens)
  unfolding run step_in attribute
  run-end out end elapsed =
      let inside = codes "runstats" ∷ codes "rnmaprun" ∷ [] in
      let time : Text × Text = (codes "time", printers.timestamp r.ended_at) in
      let out1 = out ++ opened (tag (codes "runstats") []) ∷ [] in
      let out2 =
        out1
        ++ lone (tag (codes "finished") (time ∷ (codes "elapsed", printers.secs 3 r.elapsed) ∷ []))
          ∷ [] in
      simp append_assoc (
        run-raw (tag (codes "finished") []) (codes "time") inside out1
          (printers.timestamp r.ended_at) [] _ end
        ∙ run-raw (tag (codes "finished") (time ∷ [])) (codes "elapsed") inside out1
            (printers.secs 3 r.elapsed) [] _ elapsed
        ∙ run-raw (tag (codes "hosts") []) (codes "up") inside out2 (decimal (up_count r)) [] _
            (decimal-IsRaw (up_count r))
        ∙ run-raw (tag (codes "hosts") ((codes "up", decimal (up_count r)) ∷ [])) (codes "total")
            inside out2 (decimal (host_count r)) [] _ (decimal-IsRaw (host_count r))
        ∙ ap (λ o. at epilog [] o) (gather_end out _ _ _ _ _))
