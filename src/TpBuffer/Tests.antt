-- ===== src/TpBuffer/Tests.antt =====
-- The theorems about TpBuffer at a buffer of eight cells: three of them hold a client's bytes.
use os_unixvr4_labs.Common.{◌≡◌, refl, [], ◌∷◌, some, true}
use os_unixvr4_labs.TpBuffer.{TpBuffer, control_order, is_order, client_remove, tpb_contol_message}

abbrev eight_cells : TpBuffer
eight_cells = record {
  buffer = record { buf = 0x7e ∷ 4 ∷ 9 ∷ 0 ∷ 0 ∷ 0 ∷ 0 ∷ 0 ∷ []; size = 8; count = 3; start = 0 };
  order = some 4;
}

-- Behind the control order the answer is yes with room for one of the two bytes.
abbrev control_cells : TpBuffer
control_cells = record {
  buffer = record { buf = 0x7e ∷ 255 ∷ 1 ∷ 4 ∷ 0 ∷ []; size = 5; count = 4; start = 0 };
  order = some control_order;
}

control-cells : (tpb_contol_message control_cells client_remove 4).0 ≡ true
unfolding tpb_contol_message is_order
control-cells = refl
