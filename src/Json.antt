-- ===== src/Json.antt =====
-- encoding/json, as parsers/*/*.go and cmd/gibson-runner call `json.Unmarshal`: the values of a text, in
-- two steps, tokens and then values. All syntax errors are one.
pub mod Text
pub mod Number
pub mod Lexer
pub mod Parser
pub mod Fields
pub mod Print
pub mod Maps
use gibson_tool_runner.Base.{Bytes, Bool, Option, Error}

-- A number keeps its literal. A member stands for each key of an object, in order.
mutual
  pub data Value : Type 0 where
    null : Value
    bool : Bool → Value
    number text : Bytes → Value
    array : Items → Value
    object : Members → Value

  pub data Items : Type 0 where
    no_items : Items
    item : Value → Items → Items

  pub data Members : Type 0 where
    no_members : Members
    member : Bytes → Value → Members → Members

pub data Punct : Type 0 where
  open_bracket close_bracket open_brace close_brace comma colon : Punct

pub data Token : Type 0 where
  null : Token
  bool : Bool → Token
  number text : Bytes → Token
  punct : Punct → Token
