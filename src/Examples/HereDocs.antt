-- ===== src/Examples/HereDocs.antt =====
-- Tests and witnesses on the feeding of here-documents.
use petrush.Base.{◌≡◌, refl, true, some, [], ◌∷◌, ◌++◌, arith}
use petrush.Text.{codes, str_eq}
use petrush.Parser.Stage.{Cmd, cmd_zero}
use petrush.Parser.HereDoc.{
  complete, pending, cmd_heredoc_pending, cmd_current_delim, here_body_append, skip_tabs, body_line,
  cmd_heredoc_feed, pipeline_heredoc_feed, pipeline_heredoc_pending,
}
use petrush.Parser.HereDoc.Bodies.{feed_all, feed_all-Body}

-- `cat <<A <<-B`, of which the first document is skipped.
abbrev two_documents : Cmd
two_documents = record cmd_zero {
  argv = codes "cat" ∷ [];
  argv_quoted = 0 ∷ [];
  here_delim = some (codes "B");
  here_strip = true;
  here_skip_delims = codes "A" ∷ [];
}

abbrev second_document : Cmd
second_document = record two_documents { here_feed_i = 1 }

first_waits :
    pipeline_heredoc_feed (cmd_zero ∷ two_documents ∷ []) (some (codes "A"))
    ≡ (pending, true, cmd_zero ∷ second_document ∷ [])
unfolding pipeline_heredoc_feed cmd_heredoc_feed cmd_heredoc_pending cmd_current_delim
    here_body_append skip_tabs body_line str_eq
first_waits = refl

pipeline_waits : pipeline_heredoc_pending (cmd_zero ∷ two_documents ∷ []) ≡ true
unfolding pipeline_heredoc_pending cmd_heredoc_pending
pipeline_waits = refl

feed_all-Body_example :
    feed_all ((codes "x" ∷ codes "\ty" ∷ []) ++ codes "\tB" ∷ []) second_document
    ≡ (complete, record second_document { here_body = some (codes "x\ny\n"); here_feed_i = 2 })
unfolding body_line skip_tabs str_eq
feed_all-Body_example =
    feed_all-Body second_document (codes "B") (codes "\tB") (codes "x" ∷ codes "\ty" ∷ []) refl refl
      refl refl (refl, (refl, tt)) (omega arith)
