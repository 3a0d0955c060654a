-- ===== src/Http.antt =====
-- What the clients of this repository use of net/http and encoding/json: a request with its body as
-- the JSON value that json.Marshal writes, and the answer with its body as far as it could be read.
use kagents.Prelude.{ℕ, String, Bool, List, [], ◌∷◌, Dict}
use kagents.Result.{Result}

mutual
  pub data Json : Type 0 where
    str : String → Json
    bool : Bool → Json
    num : ℕ → Json
    arr : Items → Json
    obj : Fields → Json

  pub data Items : Type 0 where
    nil : Items
    cons : Json → Items → Items

  pub data Fields : Type 0 where
    end : Fields
    field : String → Json → Fields → Fields

abbrev pub texts : List String → Items
texts [] = nil
texts (s ∷ ss) = cons (str s) (texts ss)

pub record HttpRequest : Type 0 where
  pub method : String
  pub url : String
  pub headers : Dict String
  pub body : Json

pub record HttpResponse : Type 0 where
  pub code : ℕ
  -- the text of the code, such as "404 Not Found"
  pub status : String
  pub body : String

-- The network, whose state is `W`.
pub record Transport (W : Type 0) : Type 0 where
  -- http.NewRequestWithContext: refuses a method or a URL that is malformed
  pub new_request : String → String → Result (Unit {0})
  -- Do, and io.ReadAll of the body
  pub do_request : W → HttpRequest → Result HttpResponse × W
