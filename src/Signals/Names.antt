-- ===== src/Signals/Names.antt =====
-- The signal and restart types of src/libevsig/signals.c. Each is the address of an array of its own:
-- any distinct numbers serve. Null is 0, and the types of src/libevsig/errno_signals.c start at 64.
use libevsig.Thread.{SigType}

abbrev pub null_type : SigType
null_type = 0

abbrev pub signal_nothing : SigType
signal_nothing = 1

abbrev pub signal_all : SigType
signal_all = 2

abbrev pub signal_success : SigType
signal_success = 3

abbrev pub signal_fail : SigType
signal_fail = 4

abbrev pub signal_invalid_input : SigType
signal_invalid_input = 5

abbrev pub signal_alloc_failed : SigType
signal_alloc_failed = 6

abbrev pub signal_no_sig_handler : SigType
signal_no_sig_handler = 7

abbrev pub signal_read_error : SigType
signal_read_error = 8

abbrev pub signal_write_error : SigType
signal_write_error = 9

abbrev pub signal_unsupported : SigType
signal_unsupported = 10

abbrev pub sig_restart_null : SigType
sig_restart_null = 11
