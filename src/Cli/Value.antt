-- ===== src/Cli/Value.antt =====
-- `replaceStrings` of internal/cli/fixtures.go, on a decoded JSON value.
pub mod Shape
use claude_mem_lan_sync.Prelude.{Bool, Bytes}
use claude_mem_lan_sync.Cli.Lorem.{lorem}

-- A number is its text.
mutual
  pub data Value : Type 0 where
    null : Value
    boolean : Bool → Value
    number : Bytes → Value
    text : Bytes → Value
    array : Items → Value
    object : Members → Value

  pub data Items : Type 0 where
    nil : Items
    cons : Value → Items → Items

  pub data Members : Type 0 where
    end : Members
    member : Bytes → Value → Members → Members

unfoldable mutual
  pub replace_strings : Value → Value
  replace_strings null = null
  replace_strings (boolean b) = boolean b
  replace_strings (number n) = number n
  replace_strings (text s) = text (lorem s)
  replace_strings (array items) = array (replace_items items)
  replace_strings (object members) = object (replace_members members)

  pub replace_items : Items → Items
  replace_items nil = nil
  replace_items (cons v items) = cons (replace_strings v) (replace_items items)

  pub replace_members : Members → Members
  replace_members end = end
  replace_members (member k v members) = member k (replace_strings v) (replace_members members)
