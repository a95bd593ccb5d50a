-- ===== src/Site.antt =====
-- What a script reads of the page it runs in and of the browser, besides the language: the parser of
-- URLs and dates, the locale's formats, the status contract and the Lalal.ai settings of the page.
use fetchly.Common.{ℕ, String, Bool, Option}
use fetchly.Common.Int.{ℤ}
use fetchly.Ecma.{Ecma}
use fetchly.Config.{Env, Contract}
use fetchly.Links.{Browser}

-- An instant is what `getTime()` gives; `none` is an invalid date. `format_ratio` formats a quotient of
-- two numbers, with a number of fraction digits if one is given. `lalal_max` is the limit in millionths
-- of a second.
pub record Site : Type 0 where
  pub browser : Browser
  pub contract : Contract
  pub lalal_enabled : Bool
  pub duration_guard : Bool
  pub lalal_max : ℕ
  pub upper : String → String
  pub encode_uri : String → String
  pub parse_date : String → Option ℤ
  pub format_ratio : Option ℕ → ℕ → ℕ → String
  pub format_date : ℤ → String
  pub format_time : ℤ → String
  pub format_mobile : ℤ → String

abbrev pub ecma_of : Site → Ecma
ecma_of site = site.browser.ecma

abbrev pub env_of : Site → Env
env_of site = record { ecma = site.browser.ecma; contract = site.contract }
