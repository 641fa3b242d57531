-- ===== src/Lib.antt =====
-- Verification of dnp3generator, which simulates DNP3 masters and outstations from a configuration
-- file and moves measurements from one outstation to another.
--
-- The program. CfgJsonParser (dnp3generator/CfgJsonParser.cpp) reads a JSON file into nodes
-- (dnp3generator/Node.h): it assigns IP addresses from a CIDR range (dnp3generator/CidrCalculator.cpp)
-- and DNP3 addresses, and sizes the database of each outstation by its points. dnp3app.cpp starts a
-- thread for each node. A master station with bound outstations has a MappingSoeHandler, which puts
-- the measurements it receives into the input arrays of each mapping outstation that takes points
-- from it; the loop of a mapping outstation copies flagged inputs to its outputs and updates its
-- DNP3 database, by itself or by way of a Lua script. A key of the user, kept in ThreadSafeUserInput
-- (dnp3generator/dnp3app.h), makes a station change to its next Lua script.
--
-- The files. The paths of the code start at dnp3generator.
--   Base            shared: tests on native numbers, lists, signed integers, maps as association
--                   lists in key order, results that may fail
--   Points          DataPoint.h; `Doubles`, what the code uses of the type double
--   Mapping         MappingOutstation.cpp: Arrays is ConfigureInputMultiplexingArrays and the start
--                   of run, Passing is passThruDataChanges, Inject is injectDataChanges and the
--                   LuaInvoke functions, Loop the loop of run; the other children hold the
--                   proofs
--   Soe             MappingSoeHandler.cpp: the overloads of Process for binaries, analogs, counters;
--                   Printing is the overloads that print
--   UserInput       ThreadSafeUserInput of dnp3app.h, GetNextLuaFile of Station.cpp, and the loop in
--                   each run that changes scripts
--   Decimal         numbers in text, as streams and std::to_string write them
--   StringUtilities StringUtilities.cpp
--   Cidr            CidrCalculator.cpp
--   Node            Node.cpp and DataPoint.cpp
--   Config          CfgJsonParser.cpp: Addresses, IndexList and DataSpecs (points), Readers (single
--                   settings), Parse (the constructor)
--   Station         Station.cpp: the tables of variations; Database is ConfigureDatabase. Rounds is the
--                   loop of run of masters and of outstations with a script, Starting how a station
--                   comes by its script
--   Master          MasterStation.cpp: FireOffMasterCommand; Script is LuaInvokeScript, Setup what run
--                   does before its loop
--   OutStation      OutStation.cpp: LuaInvokeScript, and the stack that both kinds of outstations set
--   App             dnp3app.cpp: the stations that main makes of the nodes, their binding by name, and
--                   the loop on the user's commands; initialize and UpdateDestinations of a master;
--                   Entry is main, with its options and the pipe
--   System          the run of the program: starts, callbacks and passes as steps in any order, from
--                   the stations of a parsed file on;
--                   Scripted is an outstation when the loop of its script begins, Threads the
--                   program with the scripts of mapping outstations and the input of the user
--   Tests           the theorems at concrete inputs
--
-- Conventions. A result `none` is an exception or a Lua error that leaves the function, an access out of
-- the bounds of a vector, or a sum of ints that overflows, as the comment at each definition says. Functions that hold a mutex are steps
-- of a history, one after the other. Shared pointers are places in lists. An int is a signed
-- integer; the sum that gives a size from an index is tested for overflow, the indexes that scripts
-- give are cut to 32 bits by `to_i32`, and the 16-bit fields wrap by `to_u16`. The text of an index list is scanned
-- with its length as fuel, and each match takes a character or more; the digits of a number are
-- found with its value as fuel.
--
-- Parameters. Property trees of boost (`PropTree`), the type double (`Doubles`), and Lua scripts
-- (`LuaScript`, and the tables `GeneratedData` and `LuaValue`) are not part of the repository, nor are
-- the texts of doubles and of opendnp3's enumerators (`Texts`); the
-- calls of opendnp3 are lists of values, and the view that its configuration makes of an
-- outstation's sizes is described by `IsView`. Where a theorem needs the script's functions to return and
-- to leave a table, it says so (`Answers`).
--
-- Not modelled: the signals of dnp3app.cpp, and the threads of the operating
-- system, for which the steps of System stand; the channels and listeners of opendnp3 in the run
-- functions; the tests, and packaging. In
-- System the set-up of an outstation's arrays is one step, as if it held the station's mutex, which
-- the code does not take there.
pub mod Base
pub mod Points
pub mod Mapping
pub mod Soe
pub mod UserInput
pub mod Decimal
pub mod StringUtilities
pub mod Cidr
pub mod Node
pub mod Config
pub mod Station
pub mod Master
mod Tests
pub mod App
pub mod System
pub mod OutStation
