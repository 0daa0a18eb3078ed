-- ===== src/Handlers/Writer.antt =====
-- The two sides of an HTTP exchange of internal/handlers. A handler is what it does with its
-- `http.ResponseWriter`: a tree of calls that ends in a return or in a panic. The writer is an interface
-- over a state of its own, since `net/http` gives it: a call of it may panic too, as `WriteHeader` does on
-- a status code out of range.
use tdarr_exporter.Prelude.{ℕ}
use tdarr_exporter.GoText.{Text}

-- The value of a panic: `http.ErrAbortHandler`, or another.
pub data PanicValue : Type 0 where
  err_abort_handler : PanicValue
  other_value : Text → PanicValue

-- An edit of the header map: `Set` or `Del`.
pub data HeaderEdit : Type 0 where
  set_header : Text → Text → HeaderEdit
  del_header : Text → HeaderEdit

-- What `Write` returns: the number of bytes, and whether there was an error.
pub data WriteResult : Type 0 where
  wrote_all : ℕ → WriteResult
  write_failed : ℕ → Text → WriteResult

pub data Called {ℓ} (A : Type ℓ) : Type ℓ where
  returned : A → Called A
  panicked : PanicValue → Called A

pub record WriterOps (W : Type 0) : Type 0 where
  pub edit_header : HeaderEdit → W → W
  pub write_header : ℕ → W → Called (Unit {0}) × W
  pub write : Text → W → Called WriteResult × W

pub data Handler : Type 0 where
  finished : Handler
  panics : PanicValue → Handler
  edits : HeaderEdit → Handler → Handler
  writes_header : ℕ → Handler → Handler
  writes : Text → (WriteResult → Handler) → Handler

-- A handler as the middleware sees it: something to run against any writer.
abbrev pub HandlerFunc : Type 1
HandlerFunc = (W : Type 0) → WriterOps W → W → Called (Unit {0}) × W

-- A call of the writer goes on behind its return; a panic unwinds.
abbrev pub behind :
    {A W : Type 0} → Called A × W → (A → W → Called (Unit {0}) × W) → Called (Unit {0}) × W
behind (returned a, w) k = k a w
behind (panicked v, w) k = (panicked v, w)

-- The run of a handler.
unfoldable pub serve : Handler → HandlerFunc
serve finished W ops w = (returned tt, w)
serve (panics v) W ops w = (panicked v, w)
serve (edits e h) W ops w = serve h W ops (ops.edit_header e w)
serve (writes_header code h) W ops w = behind (ops.write_header code w) (λ _ w'. serve h W ops w')
serve (writes b h) W ops w = behind (ops.write b w) (λ r w'. serve (h r) W ops w')
