-- ===== src/Viz/Ui/Keys.antt =====
-- The texts that the cases of `Update` compare a key with.
use yby_cli.Prelude.{ℕ, String, [], ◌∷◌, none, some, Dict, lookup, eq_String}

-- `key_select` has the tab of the keys "1" to "9".
pub data Key : Type 0 where
  key_enter key_esc key_backspace key_quit key_ctrl_c key_tab key_shift_tab key_down key_up : Key
  key_pgdown key_pgup key_home key_end key_namespace key_label key_status key_search : Key
  key_logs key_yaml key_events key_delete key_scale key_restart key_other : Key
  key_select : ℕ → Key

abbrev pub key_table : Dict String Key
key_table =
    ("enter", key_enter)
    ∷ ("esc", key_esc)
    ∷ ("backspace", key_backspace)
    ∷ ("q", key_quit)
    ∷ ("ctrl+c", key_ctrl_c)
    ∷ ("tab", key_tab)
    ∷ ("shift+tab", key_shift_tab)
    ∷ ("1", key_select 0)
    ∷ ("2", key_select 1)
    ∷ ("3", key_select 2)
    ∷ ("4", key_select 3)
    ∷ ("5", key_select 4)
    ∷ ("6", key_select 5)
    ∷ ("7", key_select 6)
    ∷ ("8", key_select 7)
    ∷ ("9", key_select 8)
    ∷ ("j", key_down)
    ∷ ("down", key_down)
    ∷ ("k", key_up)
    ∷ ("up", key_up)
    ∷ ("pgdown", key_pgdown)
    ∷ ("pgup", key_pgup)
    ∷ ("home", key_home)
    ∷ ("end", key_end)
    ∷ ("/", key_namespace)
    ∷ ("L", key_label)
    ∷ ("S", key_status)
    ∷ ("f", key_search)
    ∷ ("l", key_logs)
    ∷ ("y", key_yaml)
    ∷ ("e", key_events)
    ∷ ("d", key_delete)
    ∷ ("s", key_scale)
    ∷ ("r", key_restart)
    ∷ []

unfoldable pub key_of : String → Key
key_of text = elim (lookup text key_table) [ none ↦ key_other | some k ↦ k ]
