-- ===== src/GoStd.antt =====
-- The functions of Go's standard library that the program calls: strconv.Atoi, strings.Split and
-- strings.Fields, and the parts of net that read IPv4 addresses and networks.
pub mod Strconv
pub mod Strings
pub mod Net
