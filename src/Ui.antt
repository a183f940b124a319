-- ===== src/Ui.antt =====
-- internal/ui/embed.go: how the handler of the dashboard chooses a page.
use sugi.Base.{Option, none, some, [], ◌∷◌, if◌then◌else◌, ◌==◌}
use sugi.Base.Text.{Text, codes, is_empty}

-- The file server of net/http is asked for the request as it came, or the handler answers with
-- status 404 and the page 404.html, or net/http does.
pub data Answer : Type 0 where
  file_server : Answer
  not_found_page : Text → Answer
  not_found : Answer

-- `strings.TrimPrefix(path, "/")`.
unfoldable pub trim_slash : Text → Text
trim_slash [] = []
trim_slash (c ∷ s) = if c == b'/' then s else c ∷ s

abbrev pub missing_answer : Option Text → Answer
missing_answer none = not_found
missing_answer (some page) = not_found_page page

abbrev pub opened_answer : Option Text → Option Text → Answer
opened_answer (some content) page = file_server
opened_answer none page = missing_answer page

-- `embedded` are the files under `public`.
unfoldable pub dashboard : (Text → Option Text) → Text → Answer
unfolding trim_slash
dashboard embedded url_path =
    let path = trim_slash url_path in
    if is_empty path
    then file_server
    else opened_answer (embedded path) (embedded (codes "404.html"))
