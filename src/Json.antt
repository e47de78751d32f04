-- ===== src/Json.antt =====
-- Values of JavaScript's JSON, as a jsonb column returns them. Numbers are natural numbers; `null`
-- and an absent member are told apart by `member`.
use brokerplatform.Prelude.{ℕ, Bool, Option, none, some, String, str_eq, if◌then◌else◌}

mutual
  pub data Json : Type 0 where
    null : Json
    boolean : Bool → Json
    number : ℕ → Json
    text : String → Json
    array : Items → Json
    object : Members → Json

  pub data Items : Type 0 where
    nil : Items
    cons : Json → Items → Items

  pub data Members : Type 0 where
    end : Members
    field : String → Json → Members → Members

-- `o[k]`, with `none` for undefined.
unfoldable pub member : String → Members → Option Json
member k end = none
member k (field j v ms) = if str_eq j k then some v else member k ms
