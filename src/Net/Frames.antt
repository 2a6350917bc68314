-- ===== src/Net/Frames.antt =====
-- Messages that come in through a Port of net/core.py, and what the program calls to read them.
use ee_kernel.Base.{
  List, [], ◌∷◌, Text, Dict, Error, Result, ok, err, ◌>>=◌, value_error, eof_error, server_error,
}
use ee_kernel.Helpers.Json.{Float, Json, str, obj, entries}

-- json.loads, zlib.decompress, bytes.decode, the text of an exception, and the weights of
-- default_weights.toml.
pub record Library : Type 0 where
  pub loads : Text → Result Json
  pub decompress : Text → Result Text
  pub decode : Text → Result Text
  pub exception_to_string : Error → Text
  pub base_weights : Result (Dict Float)

-- Port.receive, with what it is going to return before the connection ends.
unfoldable pub receive_frame : List Text → Result (Text × List Text)
receive_frame [] = err eof_error
receive_frame (frame ∷ frames) = ok (frame, frames)

-- A raw string is an error of the other side, and other values but objects are refused.
unfoldable pub top_level : Json → Result (Dict Json)
top_level (str message) = err (server_error message)
top_level (obj ps) = ok (entries ps)
top_level v = err value_error

-- Port.receive_json
unfoldable pub receive_json : Library → List Text → Result (Dict Json × List Text)
unfolding receive_frame top_level
receive_json lib frames = receive_frame frames >>= λ (frame, frames').
    lib.loads frame >>= λ v. top_level v >>= λ o. ok (o, frames')
