-- ===== src/TimeUtil/Tests.antt =====
-- Runs of the check of timestamps of mcl_core/src/time_util.c, and its theorem at a concrete input.
use mindconnect_lib.Base.{◌≡◌, ◌↔◌, refl, true, false, arith}
use mindconnect_lib.Base.Text.{literal}
use mindconnect_lib.StringUtil.{string_util_strlen}
use mindconnect_lib.TimeUtil.{
  spaces, read_digits, string_util_strtol, format_loop, values_loop,
  mcl_time_util_validate_timestamp,
}
use mindconnect_lib.TimeUtil.Range.{
  Fields, timestamp_of, IsInRange, mcl_time_util_validate_timestamp_iff,
}

accepted : mcl_time_util_validate_timestamp (literal "2019-02-28T23:59:59.999Z") ≡ true
unfolding mcl_time_util_validate_timestamp format_loop values_loop string_util_strtol spaces
    read_digits string_util_strlen
accepted = refl

month_zero : mcl_time_util_validate_timestamp (literal "2019-00-28T23:59:59.999Z") ≡ false
unfolding mcl_time_util_validate_timestamp format_loop values_loop string_util_strtol spaces
    read_digits string_util_strlen
month_zero = refl

-- A character that is no digit splits a field, and the fields behind it are read one place too early.
letter_in_year : mcl_time_util_validate_timestamp (literal "20a9-01-01T10:20:30.000Z") ≡ true
unfolding mcl_time_util_validate_timestamp format_loop values_loop string_util_strtol spaces
    read_digits string_util_strlen
letter_in_year = refl

abbrev fields : Fields
fields = record {
  year = 2020;
  month = 12;
  day = 31;
  hour = 23;
  minute = 59;
  second = 59;
  millisecond = 7;
}

mcl_time_util_validate_timestamp_iff_example :
    (mcl_time_util_validate_timestamp (timestamp_of fields) ≡ true) ↔ IsInRange fields
mcl_time_util_validate_timestamp_iff_example =
    mcl_time_util_validate_timestamp_iff fields
      (omega arith, omega arith, omega arith, omega arith, omega arith, omega arith, omega arith)
