-- ===== src/Lib.antt =====
-- my_linux_pbs: a verification library for the station software of a car park (MY_LinuxPBS).
--
-- The program runs one station at the entry or at the exit of a car park. A thread scans the
-- digital inputs (dio.cpp) and puts events on a queue; the events reach the lanes of
-- operation.cpp, which ask the database (db.cpp), show messages, send reports to the server and
-- pulse the barrier. The plate of a camera or the number of a card identifies a vehicle.
--
-- Base: shared names, integers, texts as lists of bytes, lists measured by native numbers.
--
-- Dio: dio.cpp. Dio/Signals has the inputs and the events of dio.h. Dio/Scan is one round of
-- DIO::monitoringDIOChangeThreadFunction, block by block, on a record of the members that it
-- keeps; the values that a round reads and its time are inputs, and a failed read is -1. Dio/Trace
-- runs a list of rounds, one for each turn of the loop, and replays the events that they send.
-- Dio/Pins has the two pin tables. Dio/Presence, OpenTooLong, Alarm, Lost and ManualFlag prove the
-- properties, on the lemmas of Dio/Quiet.
--
-- Plate: Plate/Similarity is operation::getMaxSimilarity and getDigitFromString, Plate/Matching
-- the choice of an entry record within operation::PBSExit. The source computes the percentage in a
-- float; here it is the exact quotient, rounded to the nearest integer. Plate/Exact and Plate/Best
-- prove the properties.
--
-- Text: the conversions of common.cpp and db::CalParkedTime. Text/Split runs FnParseString on a
-- fuel of the length of the text, which parse_from-fuel shows to be enough. Text/Decimal prints
-- numbers on a fuel above the number of digits.
--
-- Clock: ce_time.cpp. A moment is the whole seconds of the local clock since 1970, where the
-- source keeps a Julian day in a double; the time zone is a whole number of hours without daylight
-- saving time, so that differences of minutes and hours are those of the Unix time, and mktime is
-- a parameter. The source adds the microseconds of the clock at the call to that double and cuts
-- off the fractions of hours, minutes and seconds, so that it can read a moment one second early;
-- in the model a moment is exact, and the tariffs keep moments where the source prints and reads
-- times of day, so that such a second is left out. Clock/Julian proves the conversion of dates.
--
-- Tariff: the fee calculation of db.cpp. Tariff has the tables (tariff_struct) and what a
-- calculation reads, Tariff/Table how they are filled (WriteTariff2RAM, LoadTariff),
-- Tariff/DayType the day types. db::CalFeeRAM2GR is Tariff/Day (its variables, and the reading of
-- a day's zones), Tariff/FirstFree (the first minutes with their two goto labels), Tariff/Charge
-- (a zone by blocks or per entry) and Tariff/Fee (a turn of the loop, the loop, RoundIt and the
-- total); Tariff/Periods is CalFeeRAM2G. A part of a turn goes on, leaves the loop or answers, as
-- Flow says. The arrays are functions, so that an index behind the zones of a day keeps what an
-- earlier day left there. The loop over the days has a fuel of more turns than the stay has
-- minutes, for each day, and the loop over the blocks of a zone one of its minutes; Tariff/Ends
-- shows that both are enough. Tariff/Moves, Later and Turn have the lemmas of that proof,
-- Tariff/Every the rule for a chain of parts; Tariff/Bounded and Cap bound the fee, Tariff/Blocks
-- counts blocks, Tariff/Lookup reads the table. The block of minutes of a zone is an integer of
-- any sign; Tariff/Backwards has what a negative one does, and the fuel of the blocks is enough
-- where it is not negative. The other numeric columns of a tariff hold numbers that are not
-- negative, no column is null, amounts are hundredths of the table's unit where the source has a
-- float, and variables that the source leaves unset start at 0.
--
-- Station: operation.cpp. Station/State has the records of structuredata.h with the fields that
-- the operations use, and the actions that leave the station: messages, outputs, records written.
-- Station/Env has what the operations only read: settings, sensors, the clock, and the answers of
-- the database and of the fee and time calculations. An operation (Station/Op) maps a state to a
-- state, the actions in their order and whether the caller goes on, so that an early return ends a
-- sequence. Station/Display, Barrier, Clear, SeasonType, SeasonMessage and Vehicle have the
-- operations that the lanes share; Station/Admission is the entry lane (PBSEntry, SaveEntry),
-- Station/Departure and its modules, with Station/Found, Station/Exit and Station/Fee, are the
-- exit lane (PBSExit, CheckIUorCardStatus, DebitOK, FetchEntryinfo of db.cpp, SaveExit,
-- CloseExitOperation, ticketOK, RedeemTime2Amt, showFee2User, ReceivedEntryRecord). Station/Lane
-- has the events at the loops and the camera (LoopACome, LoopAGone, LoopCGone, VehicleCome,
-- ReceivedLPR), with the check of a number at the exit as a parameter, which is
-- check_iu_or_card_status of Station/Departure/Check where that function is called, and
-- Station/Manual the loop timer and the manual opening and closing. Station/Ticket, TicketNumber
-- and TicketAnswer are the tickets at the exit (ticketScan, ProcessBarcodeData, and
-- isValidBarCodeTicket of db.cpp). Station/Reader and Reader/Messages are the card reader's two
-- messages from touchngo_reader.cpp, as texts, to processTnGResponse; a request whose number is no
-- int64_t sends none. Station/Camera is what the cameras send (lpr.cpp), to the text of the event
-- and back. Station/Faults is HandlePBSError with Sendmystatus on the table tPBSError.
-- Station/Events has the handlers of event_handler.cpp on one world, which is the station, the
-- monitor of Dio, the faults and all that was sent, and Events/Loop the queue and the thread of
-- event_manager.cpp as a step relation: a move of the thread ends where it takes or gives back the
-- lock, and other threads post events or stop it between any two moves. Station/Host, Server and
-- Monitored are the datagrams of udp.cpp: processdata, processmonitordata and the choice between
-- them by port, on the world with the flags that only these commands set; Text/Fields is the
-- ParseData of parsedata.h and the frame of SendMsg2Server. What a command asks of the database
-- and the files is a field of Orders, a pin of the barrier that a command sets is the output that
-- FnSetOpenBarrier or FnSetCloseBarrier of dio.cpp sets, and an index behind the pieces of a text,
-- which the source does not guard, reads a byte string of which nothing is known. Station/Marks
-- reads off the actions what is recorded and when the barrier is pulsed, and Station/Gate has the
-- rule for an operation that does neither.
--
-- Database: the transactions in the central and in the local database (db.cpp). Database/Rows has
-- the tables and the flags, Database/Save is insertentrytrans and insertexittrans, Database/Move
-- is moveOfflineTransToCentral with the inserts and deletes that it calls. What ODBC answers to
-- each call is an input; a row that is converted holds numbers where the source reads numbers.
-- Database/Lookups has the questions of the lanes (isvalidseason, CheckCardOK,
-- fetchUnmatchedEntryInfo). Database/Keys and Keeps have the lemmas on the rows of a number and a
-- time, Kept and Emptied the properties. The broadcasts of other stations (insertbroadcasttrans,
-- UpdateLocalEntry), which change the same local table, are not among its steps. The lanes take
-- the answers of these functions from Env.
--
-- Amounts are whole cents, as integers, where the source has a float in RM that it rounds to
-- cents. Numbers of the source that are never negative are native numbers without an upper bound;
-- the conversions of bytes and words state their bounds.
--
-- Not modelled: the X tariff, the other SQL statements of db.cpp (their answers, and the fee and
-- time calculations that the lanes call, are fields of Env), the rounding of the doubles and the
-- system clock of ce_time.cpp, the sockets (http_client.cpp, http_server.cpp, tcp_client.cpp), and
-- the database, the devices, the log and the start of the program, which are calls of other
-- libraries. What the code takes from boost (the splitting of a text, JSON) and from the standard
-- library (stoi, stod, stoll, get_time) is a parameter of the model. Examples has the theorems at
-- concrete inputs.
pub mod Base
pub mod Dio
pub mod Plate
pub mod Text
pub mod Clock
pub mod Tariff
pub mod Station
pub mod Database
pub mod Examples
